-- ===== src/Domain/Pnr.antt =====
-- app/domain/pnr.py. `secrets.choice` is a parameter: what its i-th call draws from a text.
use concurrent_flight_bookin.Prelude.{
  ℕ, zero, suc, ◌+◌, ◌≡◌, Bool, true, false, ◌||◌, Text, [], ◌∷◌, ◌++◌, ◌==◌,
}

abbrev pub pnr_alphabet : Text
pnr_alphabet =
    b'2' ∷ b'3' ∷ b'4' ∷ b'5' ∷ b'6' ∷ b'7' ∷ b'8' ∷ b'9' ∷ b'A' ∷ b'C' ∷ b'D' ∷ b'E' ∷ b'F' ∷ b'G'
    ∷ b'H' ∷ b'J' ∷ b'K' ∷ b'L' ∷ b'M' ∷ b'N' ∷ b'P' ∷ b'Q' ∷ b'R' ∷ b'S' ∷ b'T' ∷ b'U' ∷ b'V'
    ∷ b'W' ∷ b'X' ∷ b'Y' ∷ b'Z' ∷ []

abbrev pub pnr_length : ℕ
pnr_length = 6

abbrev pub e_ticket_prefix : Text
e_ticket_prefix = b'0' ∷ b'1' ∷ b'4' ∷ []

abbrev pub digits : Text
digits = b'0' ∷ b'1' ∷ b'2' ∷ b'3' ∷ b'4' ∷ b'5' ∷ b'6' ∷ b'7' ∷ b'8' ∷ b'9' ∷ []

abbrev pub has_char : ℕ → Text → Bool
has_char c [] = false
has_char c (d ∷ ds) = c == d || has_char c ds

-- `choice` draws a character of the text it is given, if there is one.
abbrev pub IsChoice : (Text → ℕ → ℕ) → Type 0
IsChoice choice = (c : ℕ) (cs : Text) (i : ℕ) → has_char (choice (c ∷ cs) i) (c ∷ cs) ≡ true

-- `"".join(secrets.choice(alphabet) for _ in range(n))`, from the i-th call on.
abbrev pub joined : (Text → ℕ → ℕ) → Text → ℕ → ℕ → Text
joined choice alphabet zero i = []
joined choice alphabet (suc n) i = choice alphabet i ∷ joined choice alphabet n (i + 1)

unfoldable pub generate_pnr : (Text → ℕ → ℕ) → Text
generate_pnr choice = joined choice pnr_alphabet pnr_length 0

unfoldable pub generate_eticket_number : (Text → ℕ → ℕ) → Text
generate_eticket_number choice = e_ticket_prefix ++ joined choice digits 10 0
