-- ===== src/Work/Locks.antt =====
-- The rows that open transactions hold: what claiming, renewing and closing do to their ids.
use waza.Prelude.{
  ℕ, ◌≡◌, refl, ap, sym, ◌∙◌, true, false, List, [], ◌∷◌, ◌==◌, ==_refl, ==_iff, All, Bool-cases,
  inl, inr, arith,
}
use waza.Prelude.Table.{store, store_each}
use waza.Prelude.Rows.{In}
use waza.Publishing.Requests.{change_at}
use waza.Work.{Work}
use waza.Work.Life.{holds, close, Mark, Picks, first, later}

-- No two of the rows have the same id.
abbrev pub Apart : List Work → Type 0
Apart [] = Unit
Apart (w ∷ ws) = (holds w.id ws ≡ false) × Apart ws

pub holds-In : (w : Work) (ws : List Work) → In w ws → holds w.id ws ≡ true
holds-In w [] m = absurd m
holds-In w (x ∷ xs) (inl e) =
    let t : (x.id == w.id) ≡ true = ap (λ (y : Work). y.id == w.id) (sym e) ∙ ==_refl w.id in
    rw t refl
holds-In w (x ∷ xs) (inr m) = let rest = holds-In w xs m in ground arith

pub holds-store :
    (k : ℕ) (r : Work) (ws : List Work) → holds k (store (λ x. x.id) r ws) ≡ holds k ws
unfolding store
holds-store k r [] = refl
holds-store k r (x ∷ xs) = ground (arith, holds-store k r xs)

pub holds-store_each :
    (k : ℕ) (f : Work → Work) (sel ws : List Work)
    → holds k (store_each (λ x. x.id) f sel ws) ≡ holds k ws
unfolding store_each
holds-store_each k f [] ws = refl
holds-store_each k f (x ∷ xs) ws =
    holds-store_each k f xs (store (λ y. y.id) (f x) ws) ∙ holds-store k (f x) ws

pub holds-change_at :
    (k id : ℕ) (f : Work → Work) (ws : List Work)
    → ((x : Work) → (f x).id ≡ x.id)
    → holds k (change_at (λ x. x.id) id f ws) ≡ holds k ws
unfolding change_at
holds-change_at k id f [] same = refl
holds-change_at k id f (x ∷ xs) same =
    let rest = holds-change_at k id f xs same in
    elim (Bool-cases (x.id == id)) [ inl t ↦ rw (t, same x, rest) refl | inr t ↦ rw (t, rest) refl ]

pub holds-close : (k id : ℕ) (ws : List Work) → holds k ws ≡ false → holds k (close id ws) ≡ false
holds-close k id [] h = refl
holds-close k id (x ∷ xs) h =
    let rest : holds k (close id xs) ≡ false = holds-close k id xs (ground arith) in
    elim (Bool-cases (x.id == id)) [ inl t ↦ rw t rest | inr t ↦ rw (t, rest) (ground arith) ]

pub Apart-close : (id : ℕ) (ws : List Work) → Apart ws → Apart (close id ws)
Apart-close id [] h = tt
Apart-close id (x ∷ xs) h = elim (Bool-cases (x.id == id)) [
  | inl t ↦ rw t (Apart-close id xs h.1)
  | inr t ↦ rw t (holds-close x.id id xs h.0, Apart-close id xs h.1)
]

pub Apart-store : (r : Work) (ws : List Work) → Apart ws → Apart (store (λ x. x.id) r ws)
unfolding store
Apart-store r [] h = tt
Apart-store r (x ∷ xs) h = elim (Bool-cases (x.id == r.id)) [
  | inl t ↦
      let e = (==_iff x.id r.id).0 t in
      rw t (holds-store r.id r xs ∙ ap (λ k. holds k xs) (sym e) ∙ h.0, Apart-store r xs h.1)
  | inr t ↦ rw t (holds-store x.id r xs ∙ h.0, Apart-store r xs h.1)
]

pub All-Picks :
    (P : Mark → Type 0) (m : Mark) {ms ms' : List Mark}
    → Picks m ms ms'
    → All P ms
    → P m × All P ms'
All-Picks P m (first ms) h = h
All-Picks P m (later k p) h = let (here, rest) = All-Picks P m p h.1 in (here, (h.0, rest))

pub All-change_at :
    (P : Work → Type 0) (id : ℕ) (f : Work → Work) (ws : List Work)
    → ((x : Work) → P x → P (f x))
    → All P ws
    → All P (change_at (λ x. x.id) id f ws)
unfolding change_at
All-change_at P id f [] keep h = tt
All-change_at P id f (x ∷ xs) keep h =
    let rest = All-change_at P id f xs keep h.1 in
    elim (Bool-cases (x.id == id)) [ inl t ↦ rw t (keep x h.0, rest) | inr t ↦ rw t (h.0, rest) ]
