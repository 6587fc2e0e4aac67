-- ===== src/Ctx.antt =====
-- The parts of a url in src/ctx.rs, and the cut of a text at a character.
pub mod Urls
pub mod Vendors
pub mod Floor
mod Tests
use afeye.Prelude.{
  ℕ, zero, suc, ◌+◌, ◌-◌, Bool, true, false, ◌&&◌, ◌||◌, not, Option, some, none, List, [], ◌∷◌,
  ◌++◌, Bytes, length, drop, codes, starts_with, Outcome, done, ◌>>=◌, byte_at, leb, ◌==◌,
  if◌then◌else◌, bit_and,
}

-- `while i > 0 && (b[i] & 0xc0) == 0x80 { i -= 1 }`
unfoldable pub floor_from : Bytes → ℕ → Outcome ℕ
floor_from s zero = done 0
floor_from s (suc i) = do
  c ← byte_at s (suc i)
  let lower = floor_from s i
  if bit_and c 0xc0 == 0x80 then lower else done (suc i)

unfoldable pub char_floor : Bytes → ℕ → Outcome ℕ
unfolding floor_from
char_floor s n = if leb (length s) n then done (length s) else floor_from s n

-- what stands in front of the first `p`, and behind it
unfoldable pub split_at : Bytes → Bytes → Option (Bytes × Bytes)
split_at p [] = if starts_with [] p then some ([], []) else none
split_at p (c ∷ s) =
    let rest : Option (Bytes × Bytes) = elim (split_at p s) [
      | none ↦ none
      | some (a, b) ↦ some (c ∷ a, b)
    ] in
    if starts_with (c ∷ s) p then some ([], drop (length p) (c ∷ s)) else rest

-- up to the first byte of a kind, `&s[..s.find(p).unwrap_or(s.len())]`
unfoldable pub until : (ℕ → Bool) → Bytes → Bytes
until p [] = []
until p (c ∷ s) = let rest = until p s in if p c then [] else c ∷ rest

-- around the last `c`, `rfind`
unfoldable pub split_last : ℕ → Bytes → Option (Bytes × Bytes)
split_last c [] = none
split_last c (x ∷ s) = elim (split_last c s) [
  | some (a, b) ↦ some (x ∷ a, b)
  | none ↦ if x == c then some ([], s) else none
]

abbrev pub ends_authority : ℕ → Bool
ends_authority c = c == 47 || (c == 63 || c == 35)

abbrev pub ends_path : ℕ → Bool
ends_path c = c == 63 || c == 35

abbrev pub holds_byte : ℕ → Bytes → Bool
holds_byte c [] = false
holds_byte c (x ∷ s) = x == c || holds_byte c s

-- a host in brackets: up to the bracket that closes it
unfoldable pub bracketed : Bytes → Bytes
bracketed [] = []
bracketed (c ∷ s) = let rest = bracketed s in if c == 93 then c ∷ [] else c ∷ rest

-- the match on the last colon
unfoldable pub without_port : Bytes → Bytes
unfolding split_last bracketed
without_port hostport = elim (split_last 58 hostport) [
  | none ↦ hostport
  | some (a, b) ↦
      if not (holds_byte 58 a) || starts_with hostport (codes "[")
      then (if starts_with hostport (codes "[") then bracketed hostport else a)
      else hostport
]

-- the authority behind its last `@`
unfoldable pub hostport_of : Bytes → Bytes
unfolding split_last
hostport_of auth = elim (split_last 64 auth) [ none ↦ auth | some (user, hostport) ↦ hostport ]

unfoldable pub host_of : Bytes → Bytes
unfolding split_at until hostport_of without_port
host_of url = elim (split_at (codes "://") url) [
  | none ↦ []
  | some (scheme, s) ↦ without_port (hostport_of (until ends_authority s))
]

-- `&url[..cut]`: `auth_end` and `cut` are the ends of the authority and of the path.
unfoldable pub through_path : Bytes → Bytes
unfolding split_at until
through_path url = elim (split_at (codes "://") url) [
  | none ↦ until ends_path url
  | some (scheme, s) ↦
      let auth = until ends_authority s in
      scheme ++ (codes "://" ++ (auth ++ until ends_path (drop (length auth) s)))
]

unfoldable pub endpoint_of : Bytes → Bytes
unfolding host_of through_path
endpoint_of url = elim (host_of url) [ [] ↦ [] | _ ∷ _ ↦ through_path url ]
