-- ===== src/Table/Packed.antt =====
-- util-src/table.c: what the table of Lpack holds.
use prosody_trunk.Base.{
  ℕ, zero, suc, ◌<◌, ◌≡◌, refl, ap, ◌∙◌, sym, List, [], ◌∷◌, ◌++◌, length, reverse, length-append,
  get_or, arith,
}
use mathlib.Core.List.{reverse-reverse, reverse-cons}
use native.Mathlib.Decide.{dec_lt}
use prosody_trunk.Lua.{Value, nil}
use prosody_trunk.Table.{rawseti, pack_loop, lpack}

-- Places above the height of the stack stay as they are.
untouched :
    (stack : List Value) (t : ℕ → Value) (i : ℕ)
    → length stack < i
    → pack_loop (length stack) stack t i ≡ t i
unfolding pack_loop rawseti
untouched [] t i h = refl
untouched (v ∷ stack) t i h = untouched stack (rawseti t _ v) i (omega arith) ∙ ground arith

get_or-append :
    (xs ys : List Value) (i : ℕ) → i < length xs → get_or (xs ++ ys) i nil ≡ get_or xs i nil
get_or-append [] ys i h = absurd (omega arith)
get_or-append (x ∷ xs) ys zero h = refl
get_or-append (x ∷ xs) ys (suc i) h = get_or-append xs ys i (omega arith)

length-reverse : (xs : List Value) → length (reverse xs) ≡ length xs
length-reverse [] = refl
length-reverse (x ∷ xs) =
    ap length (reverse-cons x xs)
    ∙ omega (arith, length-append (reverse xs) (x ∷ []), length-reverse xs)

at_end : (xs : List Value) (v : Value) → get_or (xs ++ (v ∷ [])) (length xs) nil ≡ v
at_end [] v = refl
at_end (x ∷ xs) v = at_end xs v

rawseti-same : (t : ℕ → Value) (i : ℕ) (v : Value) → rawseti t i v i ≡ v
unfolding rawseti
rawseti-same t i v = ground arith

-- The loop fills the places from 1 on, with the bottom of the stack first.
filled :
    (stack : List Value) (t : ℕ → Value) (i : ℕ)
    → i < length stack
    → pack_loop (length stack) stack t (suc i) ≡ get_or (reverse stack) i nil
unfolding pack_loop
filled [] t i h = absurd (omega arith)
filled (v ∷ stack) t i h = elim (dec_lt i (length stack)) [
  | yes l ↦
      filled stack (rawseti t _ v) i l
      ∙ sym (get_or-append (reverse stack) (v ∷ []) i (omega (arith, length-reverse stack)))
      ∙ ap (λ xs. get_or xs i nil) (sym (reverse-cons v stack))
  | no n ↦
      let e : i ≡ length stack = omega arith in
      let k : length (reverse stack) ≡ i = omega (arith, length-reverse stack) in
      untouched stack (rawseti t _ v) (suc i) (omega arith)
      ∙ ap (λ j. rawseti t (suc j) v (suc i)) (sym e)
      ∙ rawseti-same t (suc i) v
      ∙ sym (
          ap (λ xs. get_or xs i nil) (reverse-cons v stack) ∙ rw (sym k) (at_end (reverse stack) v))
]

-- The table of `Lpack` holds its arguments at 1, 2 and so on, in their order, nothing above them, and
-- in "n" how many they are, also where some of them are nil.
pub lpack-args :
    (args : List Value)
    → ((i : ℕ) → i < length args → (lpack args).at (suc i) ≡ get_or args i nil)
      × ((i : ℕ) → length args < i → (lpack args).at i ≡ nil)
      × ((lpack args).n ≡ length args)
unfolding lpack
lpack-args args =
    let height = length-reverse args in
    (
      λ i h.
          ap (λ n. pack_loop n (reverse args) (λ j. nil) (suc i)) (sym height)
          ∙ filled (reverse args) (λ j. nil) i (omega arith)
          ∙ ap (λ xs. get_or xs i nil) (reverse-reverse args),
      λ i h.
          ap (λ n. pack_loop n (reverse args) (λ j. nil) i) (sym height)
          ∙ untouched (reverse args) (λ j. nil) i (omega arith),
      refl,
    )
