-- ===== src/Bctrace/Blocks/Layout.antt =====
-- The values that the engine sends with an instruction, and the blocks that it writes for them;
-- when a decoded value stands for one of them.
use afeye.Prelude.{ℕ, ◌^◌, ◌<◌, ◌≡◌, some, List, [], ◌∷◌, ◌++◌, Bytes, length, done}
use afeye.Bctrace.Read.{to_le}
use afeye.Bctrace.Blocks.{
  Pv, str, str16, f64, smi, reg_word, reg_str, reg_str16, reg_f64, reg_smi, operand, vclock, bytes,
  block_value,
}

-- What the engine sends: texts as bytes, numbers as bit patterns, registers by their number.
pub data Value : Type 0 where
  acc_text acc_text16 : Bytes → Value
  acc_float acc_int : ℕ → Value
  reg_raw : ℕ → ℕ → Value
  reg_text reg_text16 : ℕ → Bytes → Value
  reg_float reg_int : ℕ → ℕ → Value
  argument : ℕ → ℕ → Value
  clock : ℕ → Value

abbrev pub tag_of : Value → ℕ
tag_of (acc_text b) = 0
tag_of (acc_text16 b) = 11
tag_of (acc_float w) = 1
tag_of (acc_int w) = 2
tag_of (reg_raw r w) = 3
tag_of (reg_text r b) = 4
tag_of (reg_text16 r b) = 12
tag_of (reg_float r w) = 5
tag_of (reg_int r w) = 6
tag_of (argument k w) = 7
tag_of (clock w) = 14

abbrev pub payload_of : Value → Bytes
payload_of (acc_text b) = b
payload_of (acc_text16 b) = b
payload_of (acc_float w) = to_le 8 w
payload_of (acc_int w) = to_le 4 w
payload_of (reg_raw r w) = to_le 2 r ++ to_le 8 w
payload_of (reg_text r b) = to_le 2 r ++ b
payload_of (reg_text16 r b) = to_le 2 r ++ b
payload_of (reg_float r w) = to_le 2 r ++ to_le 8 w
payload_of (reg_int r w) = to_le 2 r ++ to_le 4 w
payload_of (argument k w) = k ∷ to_le 8 w
payload_of (clock w) = to_le 8 w

-- The numbers fit their fields.
abbrev pub Fits : Value → Type 0
Fits (acc_text b) = Unit
Fits (acc_text16 b) = Unit
Fits (acc_float w) = w < 2 ^ 64
Fits (acc_int w) = w < 2 ^ 32
Fits (reg_raw r w) = (r < 2 ^ 16) × (w < 2 ^ 64)
Fits (reg_text r b) = r < 2 ^ 16
Fits (reg_text16 r b) = r < 2 ^ 16
Fits (reg_float r w) = (r < 2 ^ 16) × (w < 2 ^ 64)
Fits (reg_int r w) = (r < 2 ^ 16) × (w < 2 ^ 32)
Fits (argument k w) = (k < 256) × (w < 2 ^ 64)
Fits (clock w) = w < 2 ^ 64

-- The decoded value stands for the value sent: same kind, same numbers, and the same text where
-- it points into the record.
abbrev pub Carries : Bytes → Pv → Value → Type 0
Carries rec pv (acc_text b) = (s : ℕ) × (l : ℕ) × (pv ≡ str s l) × (bytes pv rec ≡ done b)
Carries rec pv (acc_text16 b) = (s : ℕ) × (l : ℕ) × (pv ≡ str16 s l) × (bytes pv rec ≡ done b)
Carries rec pv (acc_float w) = pv ≡ f64 w
Carries rec pv (acc_int w) = pv ≡ smi w
Carries rec pv (reg_raw r w) = pv ≡ reg_word r w
Carries rec pv (reg_text r b) = (s : ℕ) × (l : ℕ) × (pv ≡ reg_str r s l) × (bytes pv rec ≡ done b)
Carries rec pv (reg_text16 r b) =
    (s : ℕ) × (l : ℕ) × (pv ≡ reg_str16 r s l) × (bytes pv rec ≡ done b)
Carries rec pv (reg_float r w) = pv ≡ reg_f64 r w
Carries rec pv (reg_int r w) = pv ≡ reg_smi r w
Carries rec pv (argument k w) = pv ≡ operand k w
Carries rec pv (clock w) = pv ≡ vclock w

abbrev pub Decodes : Bytes → ℕ → Value → Type 0
Decodes rec i v =
    (pv : Pv) × (block_value rec (tag_of v) (length (payload_of v)) i ≡ done (some pv))
    × Carries rec pv v

-- [u8 tag][u32 len][len bytes]
abbrev pub head_of : Value → Bytes
head_of v = tag_of v ∷ to_le 4 (length (payload_of v))

abbrev pub encode_block : Value → Bytes
encode_block v = head_of v ++ payload_of v

abbrev pub encode_blocks : List Value → Bytes
encode_blocks [] = []
encode_blocks (v ∷ vs) = encode_block v ++ encode_blocks vs

abbrev pub AllFit : List Value → Type 0
AllFit [] = Unit
AllFit (v ∷ vs) = Fits v × AllFit vs

abbrev pub CarriesAll : Bytes → List Pv → List Value → Type 0
CarriesAll rec [] [] = Unit
CarriesAll rec (pv ∷ pvs) (v ∷ vs) = Carries rec pv v × CarriesAll rec pvs vs
CarriesAll rec [] (v ∷ vs) = ⊥
CarriesAll rec (pv ∷ pvs) [] = ⊥
