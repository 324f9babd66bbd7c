-- ===== src/DriverEntries/Spirv.antt =====
-- analyze_vulkan_driver_entries.py: `spirv_entries`. The rest of the words stands for the offset.
use my_ad.Prelude.{
  ℕ, zero, suc, ◌+◌, ◌*◌, ◌/◌, ◌%◌, ◌&&◌, Option, none, some, List, [], ◌∷◌, ◌++◌, Result, ok, err,
  ◌>>=◌, ◌>>◌, require, leb, ltb, ◌==◌, length, all, if◌then◌else◌,
}
use my_ad.PyText.{Text}
use my_ad.StageReport.Host.{Bytes}

pub data SpirvFault : Type 0 where
  bad_length bad_magic bad_instruction short_entry not_ascii : SpirvFault
  -- the fuel of the model ran out; no message of the script
  out_of_fuel : SpirvFault

-- An entry point: its execution model and its name.
abbrev pub EntryPoint : Type 0
EntryPoint = ℕ × Text

-- `struct.unpack` of little-endian words; up to three bytes at the end are left out, which the check
-- of the length excludes
unfoldable pub words_of : Bytes → List ℕ
words_of (a ∷ b ∷ c ∷ d ∷ data_) = (a + 256 * b + 65536 * c + 16777216 * d) ∷ words_of data_
words_of _ = []

-- the bytes of words, which are those of the data they stand for
unfoldable pub bytes_of : List ℕ → Bytes
bytes_of [] = []
bytes_of (w ∷ words) = w % 256 ∷ w / 256 % 256 ∷ w / 65536 % 256 ∷ w / 16777216 ∷ bytes_of words

-- `.split(b"\0", 1)[0]`
unfoldable pub until_nul : Bytes → Bytes
until_nul [] = []
until_nul (b ∷ data_) = let rest = until_nul data_ in if b == 0 then [] else b ∷ rest

-- The first words, as many as asked for, and the others; none where there are too few.
unfoldable pub split_at : ℕ → List ℕ → Option (List ℕ × List ℕ)
split_at zero words = some ([], words)
split_at (suc n) [] = none
split_at (suc n) (w ∷ words) = elim (split_at n words) [
  | none ↦ none
  | some (taken, rest) ↦ some (w ∷ taken, rest)
]

abbrev pub opcode : ℕ → ℕ
opcode word = word % 65536

abbrev pub word_count : ℕ → ℕ
word_count word = word / 65536

-- `name.decode("ascii")`
abbrev decode : Bytes → Result SpirvFault Text
decode name = if all (λ b. ltb b 128) name then ok name else err not_ascii

-- the entry point of an instruction, if it declares one
unfoldable pub entry_of : List ℕ → Result SpirvFault (List EntryPoint)
unfolding until_nul bytes_of
entry_of [] = ok []
entry_of (head ∷ model ∷ id ∷ name) =
    if opcode head == 15
    then (require (leb 4 (word_count head)) short_entry
        >> (decode (until_nul (bytes_of name)) >>= λ text. ok ((model, text) ∷ [])))
    else ok []
entry_of (head ∷ _) = if opcode head == 15 then err short_entry else ok []

-- the loop, on fuel; the set of the entries is a list here, with what is found twice
unfoldable pub walk : ℕ → List ℕ → Result SpirvFault (List EntryPoint)
walk fuel [] = ok []
walk zero (head ∷ words) = err out_of_fuel
walk (suc fuel) (head ∷ words) =
    require (leb 1 (word_count head)) bad_instruction
    >> (elim (split_at (word_count head) (head ∷ words)) [
      | none ↦ err bad_instruction
      | some (instruction, rest) ↦
          entry_of instruction >>= λ entries. walk fuel rest >>= λ more. ok (entries ++ more)
    ])

abbrev pub magic : ℕ
magic = 0x07230203

-- the words behind the header of five
abbrev pub after_header : List ℕ → Result SpirvFault (List ℕ)
after_header (first ∷ _ ∷ _ ∷ _ ∷ _ ∷ words) = require (first == magic) bad_magic >> ok words
after_header _ = err bad_length

-- `spirv_entries`, without the digest
unfoldable pub spirv_entries : Bytes → Result SpirvFault (List EntryPoint)
unfolding words_of
spirv_entries data_ = do
  require (leb 20 (length data_) && (leb (length data_) (2 * 1024 * 1024) && length data_ % 4 == 0))
      bad_length
  words ← after_header (words_of data_)
  walk (length words) words
