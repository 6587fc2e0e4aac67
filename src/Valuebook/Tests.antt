-- ===== src/Valuebook/Tests.antt =====
-- The theorems on the valuebook at concrete inputs.
use afeye.Prelude.{ℕ, refl, List, [], ◌∷◌, Bytes, codes, Returns, arith}
use afeye.Valuebook.{VOrigin, new_book, put, load_entries}
use afeye.Valuebook.Book.{Entry, put_entries, IsBook, Put, put-Put}
use afeye.Valuebook.Load.{EntryFits, Loaded, load_entries-put_entries, warm}

abbrev from_acc : VOrigin
from_acc = record { func_id = 7; off = 12; op_id = 3; src = 0 }

abbrev literal : VOrigin
literal = record { func_id = 9; off = 0; op_id = 0xFFFF; src = 2 }

abbrev no_hash : Bytes → ℕ
no_hash b = 5

new_book-IsBook : IsBook new_book []
new_book-IsBook = record { file = refl; pos = refl; offs = tt }

put-Put_example : Put from_acc (codes "token") [] (put no_hash (codes "token") from_acc new_book)
put-Put_example =
    put-Put no_hash from_acc (codes "token") new_book [] new_book-IsBook (omega arith) (omega arith)

abbrev written_entries : List Entry
written_entries = (from_acc, codes "token") ∷ (literal, codes "cold") ∷ []

token-EntryFits : EntryFits (from_acc, codes "token")
token-EntryFits = omega arith

cold-EntryFits : EntryFits (literal, codes "cold")
cold-EntryFits = omega arith

load_entries-put_entries_example :
    Returns
      (λ b. Loaded (7 ∷ []) b (warm (7 ∷ []) written_entries))
      (load_entries (7 ∷ []) (put_entries written_entries []))
load_entries-put_entries_example =
    load_entries-put_entries (7 ∷ []) written_entries (token-EntryFits, (cold-EntryFits, tt))
