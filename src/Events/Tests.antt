-- ===== src/Events/Tests.antt =====
-- Concrete lines of src/events.rs, and its theorem at a concrete input.
use afeye.Prelude.{ℕ, suc, ◌≡◌, refl, true, some, [], ◌∷◌, ◌++◌, Bytes, length, codes}
use afeye.Events.{
  ext, needs_escape, esc, hex32, new_line, open_line, fkey, key, u64v, bool, str, hex, fin,
}
use afeye.Events.Strings.{read_string, read_string-esc}

abbrev quoted : Bytes
quoted = b'a' ∷ 34 ∷ 10 ∷ 1 ∷ []

read_string-esc_example :
    (body : Bytes) × (esc quoted ++ codes "}" ≡ 34 ∷ body)
    × (read_string (suc (length quoted)) body ≡ some (quoted, codes "}"))
read_string-esc_example = read_string-esc quoted (codes "}")

abbrev no_number : ℕ → Bytes
no_number n = codes "42"

abbrev quote : ℕ
quote = 34

line :
    fin (
      bool true (
        key (codes "c") (
          str
            (codes "x")
            (key (codes "b") (u64v no_number 42 (fkey (codes "a") (open_line new_line)))))))
    ≡ b'{' ∷ quote ∷ b'a' ∷ quote ∷ b':' ∷ codes "42"
      ++ (b','
          ∷ quote
          ∷ b'b'
          ∷ quote
          ∷ b':'
          ∷ quote
          ∷ b'x'
          ∷ quote
          ∷ b','
          ∷ quote
          ∷ b'c'
          ∷ quote
          ∷ b':'
          ∷ codes "true}")
unfolding fin bool key str u64v fkey open_line esc needs_escape
line = refl

hash : (hex (171 ∷ 0 ∷ []) new_line).b ≡ quote ∷ codes "ab00" ++ (quote ∷ [])
unfolding hex hex32
hash = refl

ext_of_unknown : ext 200 ≡ codes "ico"
unfolding ext
ext_of_unknown = refl
