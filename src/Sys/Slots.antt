-- ===== src/Sys/Slots.antt =====
-- The search for a free descriptor in os/kernel/sys.c.
use system_studying.Base.{
  List, Option, [], arith, length, none, refl, some, suc, zero, ℕ, ◌+◌, ◌<◌, ◌∷◌, ◌≡◌, ◌≢◌,
}
use system_studying.Sys.{Filp, free_slot}
use system_studying.Sys.Calls.{file_at}

-- `fd` is the lowest descriptor without a file.
abbrev pub Lowest : ℕ → List (Option Filp) → Type 0
Lowest fd slots =
    (fd < length slots) × (file_at fd slots ≡ none) × ((j : ℕ) → j < fd → file_at j slots ≢ none)

-- `some fd` counts the slots from `i` on.
abbrev pub FreeFrom : ℕ → List (Option Filp) → Option ℕ → Type 0
FreeFrom i slots none = (j : ℕ) → j < length slots → file_at j slots ≢ none
FreeFrom i slots (some fd) = (k : ℕ) × (fd ≡ i + k) × Lowest k slots

skip_used :
    (filp : Filp) (slots : List (Option Filp)) (n : ℕ)
    → ((j : ℕ) → j < n → file_at j slots ≢ none)
    → (j : ℕ) → j < suc n
    → file_at j (some filp ∷ slots) ≢ none
skip_used filp slots n h zero k = λ e. cc e
skip_used filp slots n h (suc j) k = h j (omega (arith, k))

FreeFrom-cons :
    (i : ℕ) (filp : Filp) (slots : List (Option Filp)) (r : Option ℕ)
    → FreeFrom (suc i) slots r
    → FreeFrom i (some filp ∷ slots) r
FreeFrom-cons i filp slots none h = skip_used filp slots (length slots) h
FreeFrom-cons i filp slots (some fd) (k, e, (bound, free, used)) =
    (suc k, omega (arith, e), (omega (arith, bound), free, skip_used filp slots k used))

pub free_slot-FreeFrom : (i : ℕ) (slots : List (Option Filp)) → FreeFrom i slots (free_slot i slots)
free_slot-FreeFrom i [] = λ j k. absurd (omega arith)
free_slot-FreeFrom i (none ∷ slots) =
    (0, omega arith, (omega arith, refl, λ j k. absurd (omega arith)))
free_slot-FreeFrom i (some filp ∷ slots) =
    FreeFrom-cons i filp slots (free_slot (suc i) slots) (free_slot-FreeFrom (suc i) slots)
