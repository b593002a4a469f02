-- ===== src/Printf/Interpreter/Pieces.antt =====
-- What `ee_vsprintf` of sw/coremark/barebone-arty-a7/ee_printf.c writes for a format that is made of plain
-- characters and of conversions without flags, width and precision.
use zr_soc.Common.{ℕ, ◌%◌, ◌^◌, ◌<◌, ◌≡◌, ◌≢◌, u32, true, some, List, [], ◌∷◌, ◌++◌, length}
use zr_soc.Printf.{Flags}
use zr_soc.Printf.Digits.{Printed}
use zr_soc.Printf.Format.{Argument, word, text, no_flags, minus_one}

-- The conversions of a number.
pub data Numeric : Type 0 where
  decimal unsigned octal lower_hex upper_hex pointer : Numeric

pub letter : Numeric → ℕ
letter decimal = b'd'
letter unsigned = b'u'
letter octal = b'o'
letter lower_hex = b'x'
letter upper_hex = b'X'
letter pointer = b'p'

pub base_of : Numeric → ℕ
base_of decimal = 10
base_of unsigned = 10
base_of octal = 8
base_of lower_hex = 16
base_of upper_hex = 16
base_of pointer = 16

pub flags_of : Numeric → Flags
flags_of decimal = record no_flags { sign = true }
flags_of unsigned = no_flags
flags_of octal = no_flags
flags_of lower_hex = no_flags
flags_of upper_hex = record no_flags { uppercase = true }
flags_of pointer = record no_flags { zeropad = true }

-- A pointer has eight digits.
pub size_of : Numeric → ℕ
size_of decimal = minus_one
size_of unsigned = minus_one
size_of octal = minus_one
size_of lower_hex = minus_one
size_of upper_hex = minus_one
size_of pointer = 8

-- A part of a format, with its argument.
pub data Piece : Type 0 where
  plain : ℕ → Piece
  percent : Piece
  char : ℕ → Piece
  string : List ℕ → Piece
  numeric : Numeric → ℕ → Piece

pub lead : Piece → ℕ
lead (plain c) = c
lead percent = b'%'
lead (char c) = b'%'
lead (string s) = b'%'
lead (numeric n w) = b'%'

pub behind : Piece → List ℕ
behind (plain c) = []
behind percent = b'%' ∷ []
behind (char c) = b'c' ∷ []
behind (string s) = b's' ∷ []
behind (numeric n w) = letter n ∷ []

pub formats : List Piece → List ℕ
formats [] = []
formats (p ∷ ps) = lead p ∷ (behind p ++ formats ps)

pub argument : {F : Type 0} → Piece → List (Argument F)
argument (plain c) = []
argument percent = []
argument (char c) = word c ∷ []
argument (string s) = text (some s) ∷ []
argument (numeric n w) = word w ∷ []

pub arguments : {F : Type 0} → List Piece → List (Argument F)
arguments [] = []
arguments (p ∷ ps) = argument p ++ arguments ps

-- A plain character begins no conversion, and a text is shorter than 2 ^ 32.
unfoldable pub Fine : Piece → Type 0
Fine (plain c) = c ≢ b'%'
Fine percent = Unit
Fine (char c) = Unit
Fine (string s) = length s < 2 ^ 32
Fine (numeric n w) = Unit

-- What a part writes.
pub Writes : Piece → List ℕ → Type 0
Writes (plain c) out = out ≡ c ∷ []
Writes percent out = out ≡ b'%' ∷ []
Writes (char c) out = out ≡ c % 2 ^ 8 ∷ []
Writes (string s) out = out ≡ s
Writes (numeric n w) out = Printed (flags_of n) (u32 w) (base_of n) (size_of n) minus_one out

pub Texts : List Piece → List ℕ → Type 0
Texts [] out = out ≡ []
Texts (p ∷ ps) out = (a : List ℕ) × (b : List ℕ) × (out ≡ a ++ b) × Writes p a × Texts ps b
