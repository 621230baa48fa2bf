-- ===== src/Prelude/Find.antt =====
-- Python's searches in text: `str.startswith`, `str.find`, `str.rfind` and `str.count`.
use Prim.Native.Nat.{ℕ, zero, suc, ◌+◌, ◌-◌, ◌≤◌}
use mathlib.Core.Path.{◌≡◌, refl, sym, ap}
use mathlib.Core.Bool.{Bool, true, false, ◌&&◌}
use mathlib.Core.Option.{Option, none, some}
use mathlib.Core.List.{[], ◌∷◌, ◌++◌}
use native.Mathlib.Omega.{arith}
use waza.Prelude.Tests.{◌==◌, ==_iff, ==_refl, and_true, if◌then◌else◌}
use waza.Prelude.Lists.{length, drop}
use waza.Prelude.Text.{Text, is_nil}

-- `s.startswith(prefix)`.
unfoldable pub starts_with : Text → Text → Bool
starts_with [] s = true
starts_with (p ∷ ps) [] = false
starts_with (p ∷ ps) (c ∷ s) = p == c && starts_with ps s

-- A position in a text's tail, counted in the text.
abbrev pub shift : ℕ → Option ℕ → Option ℕ
shift n none = none
shift n (some i) = some (n + i)

-- `s.find(sub)`; `none` stands for -1.
unfoldable pub find_text : Text → Text → Option ℕ
find_text sub [] = if is_nil sub then some 0 else none
find_text sub (c ∷ s) =
    let rest = find_text sub s in if starts_with sub (c ∷ s) then some 0 else shift 1 rest

-- `s.find(sub, start)`.
unfoldable pub find_text_from : Text → ℕ → Text → Option ℕ
find_text_from sub start s = shift start (find_text sub (drop start s))

abbrev pub or_first : Option ℕ → Option ℕ → Option ℕ
or_first none o = o
or_first (some i) o = some i

-- `s.rfind(sub)`.
unfoldable pub rfind_text : Text → Text → Option ℕ
rfind_text sub [] = if is_nil sub then some 0 else none
rfind_text sub (c ∷ s) =
    or_first (shift 1 (rfind_text sub s)) (if starts_with sub (c ∷ s) then some 0 else none)

-- The occurrences in `s.count(sub)`, after the first `skip` characters; they do not overlap.
unfoldable pub count_after : Text → ℕ → Text → ℕ
count_after sub skip [] = 0
count_after sub (suc skip) (c ∷ s) = count_after sub skip s
count_after sub zero (c ∷ s) =
    let found = count_after sub (length sub - 1) s in
    let rest = count_after sub 0 s in if starts_with sub (c ∷ s) then suc found else rest

pub length-starts_with : (sub s : Text) → starts_with sub s ≡ true → length sub ≤ length s
unfolding starts_with
length-starts_with [] s h = omega arith
length-starts_with (p ∷ ps) [] h = ground arith
length-starts_with (p ∷ ps) (c ∷ s) h = ground (arith, length-starts_with ps s)

-- Where the first occurrence is, from whether one is at the front and where the tail's first is.
first_within :
    (n l i : ℕ) (b : Bool) (o : Option ℕ)
    → ((j : ℕ) → o ≡ some j → j + n ≤ l)
    → (b ≡ true → n ≤ suc l)
    → (if b then some 0 else shift 1 o) ≡ some i
    → i + n ≤ suc l
first_within n l i true o f g h = ground (arith, g refl)
first_within n l i false none f g h = ground arith
first_within n l i false (some j) f g h = ground (arith, f j refl)

last_within :
    (n l i : ℕ) (b : Bool) (o : Option ℕ)
    → ((j : ℕ) → o ≡ some j → j + n ≤ l)
    → (b ≡ true → n ≤ suc l)
    → or_first (shift 1 o) (if b then some 0 else none) ≡ some i
    → i + n ≤ suc l
last_within n l i true none f g h = ground (arith, g refl)
last_within n l i false none f g h = ground arith
last_within n l i b (some j) f g h = ground (arith, f j refl)

-- An occurrence lies within the text.
pub find_text-le : (sub s : Text) (i : ℕ) → find_text sub s ≡ some i → i + length sub ≤ length s
unfolding find_text
find_text-le [] [] i h = ground arith
find_text-le (p ∷ ps) [] i h = ground arith
find_text-le sub (c ∷ s) i h =
    first_within (length sub) (length s) i (starts_with sub (c ∷ s)) (find_text sub s)
      (λ j e. find_text-le sub s j e) (λ e. length-starts_with sub (c ∷ s) e) h

pub rfind_text-le : (sub s : Text) (i : ℕ) → rfind_text sub s ≡ some i → i + length sub ≤ length s
unfolding rfind_text
rfind_text-le [] [] i h = ground arith
rfind_text-le (p ∷ ps) [] i h = ground arith
rfind_text-le sub (c ∷ s) i h =
    last_within (length sub) (length s) i (starts_with sub (c ∷ s)) (rfind_text sub s)
      (λ j e. rfind_text-le sub s j e) (λ e. length-starts_with sub (c ∷ s) e) h

-- A text starts with `sub` when it is `sub` and what follows it.
pub starts_with-drop : (sub s : Text) → starts_with sub s ≡ true → s ≡ sub ++ drop (length sub) s
unfolding starts_with
starts_with-drop [] s h = refl
starts_with-drop (p ∷ ps) [] h = absurd (ground (arith, h))
starts_with-drop (p ∷ ps) (c ∷ s) h =
    let (a, b) = and_true (p == c) (starts_with ps s) h in
    rw (sym ((==_iff p c).0 a)) (ap (λ t. p ∷ t) (starts_with-drop ps s b))

pub starts_with-append : (sub s : Text) → starts_with sub (sub ++ s) ≡ true
unfolding starts_with
starts_with-append [] s = refl
starts_with-append (p ∷ ps) s = rw (==_refl p, starts_with-append ps s) refl

pub drop-append : (sub s : Text) → drop (length sub) (sub ++ s) ≡ s
drop-append [] s = refl
drop-append (p ∷ ps) s = drop-append ps s
