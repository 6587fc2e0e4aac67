-- ===== src/Collect/Parts.antt =====
-- The part files of src/collect.rs: `put_file_name`, `PartWriter` and `part_writer`. The directory
-- is a list of names and contents; whether a file opens and how much of a write succeeds are
-- arguments. `itoa` is the parameter `format`.
pub mod Push
use afeye.Prelude.{
  ℕ, zero, suc, ◌+◌, ◌-◌, Bool, true, false, ◌&&◌, Option, some, none, List, [], ◌∷◌, ◌++◌, Bytes,
  length, take, codes, bytes_eq, ◌*◌, Outcome, done, panic, ◌>>=◌, leb, ◌==◌, if◌then◌else◌,
}

abbrev pub Files : Type 0
Files = List (Bytes × Bytes)

unfoldable pub contents : Bytes → Files → Option Bytes
contents name [] = none
contents name ((n, b) ∷ files) = if bytes_eq n name then some b else contents name files

-- `OpenOptions::new().create(true).append(true).open(name)`
unfoldable pub create : Bytes → Files → Files
create name [] = (name, []) ∷ []
create name ((n, b) ∷ files) =
    if bytes_eq n name then (n, b) ∷ files else (n, b) ∷ create name files

unfoldable pub append : Bytes → Bytes → Files → Files
append name bytes [] = []
append name bytes ((n, b) ∷ files) =
    if bytes_eq n name then (n, b ++ bytes) ∷ files else (n, b) ∷ append name bytes files

-- `file` is the name of the open file.
pub record PartWriter : Type 0 where
  pub file : Bytes
  pub rel : Bytes
  pub seq : ℕ
  pub written : ℕ

abbrev pub part_roll_bytes : ℕ
part_roll_bytes = 8 * 1048576

unfoldable pub repeat : ℕ → ℕ → Bytes
repeat zero c = []
repeat (suc n) c = c ∷ repeat n c

-- The buffer has 96 bytes, and a write behind it panics.
unfoldable pub put_file_name : (ℕ → Bytes) → Bytes → Bytes → ℕ → ℕ → ℕ → Outcome Bytes
unfolding repeat
put_file_name format layer kname tag num width =
    let s = format num in
    let name =
      layer
      ++ (b'-'
          ∷ (kname
              ++ (b'-'
                  ∷ ((if tag == 0 then [] else tag ∷ [])
                      ++ (repeat (width - length s) b'0' ++ (s ++ codes ".bin")))))) in
    if leb (length name) 96 then done name else panic

module _ (format : ℕ → Bytes) (layer kname : Bytes) where
  -- `opens` says whether the new file opens.
  unfoldable pub roll : Bool → Files → PartWriter → Outcome (Files × PartWriter)
  roll opens files pw = do
    name ← put_file_name format layer kname b'p' (pw.seq + 1) 4
    let old : PartWriter = record {
      file = pw.file;
      rel = pw.rel;
      seq = pw.seq + 1;
      written = pw.written;
    }
    let new : PartWriter = record {
      file = name;
      rel = codes "raw/" ++ name;
      seq = pw.seq + 1;
      written = 0;
    }
    done (if opens then (create name files, new) else (files, old))

  -- `write_all`: `none` writes all, `some k` fails behind the first `k` bytes.
  unfoldable pub write_part :
      Option ℕ → Bytes → Files × PartWriter → Outcome ((Files × PartWriter) × Option ℕ)
  write_part none payload (files, pw) = done (
    (
      append pw.file payload files,
      record { file = pw.file; rel = pw.rel; seq = pw.seq; written = pw.written + length payload },
    ),
    some pw.written,
  )
  write_part (some k) payload (files, pw) = done ((append pw.file (take k payload) files, pw), none)

  unfoldable pub push :
      Bool → Option ℕ → Bytes → Files × PartWriter → Outcome ((Files × PartWriter) × Option ℕ)
  push opens fails payload (files, pw) = do
    st ← (if leb part_roll_bytes pw.written then roll opens files pw else done (files, pw))
    write_part fails payload st

  -- a first writer of a layer and a kind
  unfoldable pub part_writer : Bool → Files → Outcome (Option (Files × PartWriter))
  part_writer opens files = do
    name ← put_file_name format layer kname b'p' 0 4
    let st : Files × PartWriter = (
      create name files,
      record { file = name; rel = codes "raw/" ++ name; seq = 0; written = 0 },
    )
    done (if opens then some st else none)
