-- ===== src/Isa/Command/Code.antt =====
-- A whole code: Log finds the instructions that were written, each at its position.
use cbc_engine.Prelude.{
  ℕ, zero, suc, ◌+◌, ◌≡◌, refl, ap, ◌∙◌, List, [], ◌∷◌, ◌++◌, Option, none, some, length, get_elem?,
}
use cbc_engine.Isa.Format.{formats}
use cbc_engine.Isa.Command.{Command, encode, log_format, log_instruction, log, running}
use cbc_engine.Isa.Command.Opcode.{opcode, encode-StartsWith}
use cbc_engine.Isa.Command.Fit.{format, FitCommand}
use cbc_engine.Isa.Command.RoundTrip.{decode-encode}

-- The bytes of several instructions.
abbrev pub joined : Option (List ℕ) → Option (List ℕ) → Option (List ℕ)
joined none y = none
joined (some b) none = none
joined (some b) (some bytes) = some (b ++ bytes)

unfoldable pub encode_all : List Command → Option (List ℕ)
encode_all [] = some []
encode_all (c ∷ cs) = joined (encode c) (encode_all cs)

abbrev pub size_of : Option (List ℕ) → ℕ
size_of none = 0
size_of (some b) = length b

-- The instructions with their positions.
unfoldable pub placed : ℕ → List Command → List (ℕ × Option Command)
placed at [] = []
placed at (c ∷ cs) = (at, some c) ∷ placed (at + size_of (encode c)) cs

-- The fields fit, and the format is that of the opcode.
abbrev pub IsInstruction : Command → Type 0
IsInstruction c = (get_elem? formats (opcode c) ≡ some (format c)) × FitCommand c

abbrev pub AllInstructions : List Command → Type 0
AllInstructions [] = Unit
AllInstructions (c ∷ cs) = IsInstruction c × AllInstructions cs

-- One round, on the bytes of an instruction and those that follow.
pub log_instruction-encode :
    (c : Command) (b : ℕ) (t rest : List ℕ)
    → encode c ≡ some (b ∷ t)
    → IsInstruction c
    → log_instruction b ((b ∷ t) ++ rest) ≡ some (some c, rest)
unfolding log_instruction log_format
log_instruction-encode c b t rest e h =
    let first : b ≡ opcode c = encode-StartsWith c e h.1 in
    let row : get_elem? formats b ≡ some (format c) = rw first h.0 in
    ap (λ f. log_format f ((b ∷ t) ++ rest)) row ∙ rw (decode-encode c rest e h.1) refl

not_read :
    (b : ℕ) (bytes : List ℕ)
    → get_elem? formats b ≡ none
    → log_instruction b (b ∷ bytes) ≡ some (none, b ∷ bytes)
unfolding log_instruction log_format
not_read b bytes h = ap (λ f. log_format f (b ∷ bytes)) h

-- At an opcode out of the table the loop of Log stays: no Decode fails, and after any number of
-- rounds it still runs.
pub log-unknown :
    (size fuel b : ℕ) (bytes : List ℕ)
    → get_elem? formats b ≡ none
    → log size fuel (b ∷ bytes) ≡ running
unfolding log
log-unknown size zero b bytes h = refl
log-unknown size (suc fuel) b bytes h =
    let stays : log_instruction b (b ∷ bytes) ≡ some (none, b ∷ bytes) = not_read b bytes h in
    rw (stays, log, log-unknown size fuel b bytes h) refl
