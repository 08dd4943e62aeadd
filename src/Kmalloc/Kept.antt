-- ===== src/Kmalloc/Kept.antt =====
-- What the grant of a free block leaves of a used one, for kernel/src/mm/kmalloc.c: the used block is
-- still in the list, at the same place, and does not meet the block that was granted.
use freecore.Prelude.{
  ℕ, ◌+◌, ◌≤◌, ◌≡◌, refl, ap, sym, ◌∙◌, true, false, List, [], ◌∷◌, ◌++◌, arith, inl, inr, ◌⊎◌,
}
use mathlib.Core.List.{append_assoc}
use mathlib.Core.Bool.{true≢false}
use freecore.Kmalloc.Policy.{Block, total, total-append, granted, carve}

-- A used block `b` in front of `ys` and behind `xs` is still there, at the same place, after the
-- free block `c` between `xs'` and `zs` was granted to a request.
pub record IsKept (n : ℕ) (xs : List Block) (b : Block) (xs' : List Block) (c : Block)
    (zs : List Block) : Type 0 where
  pub front : List Block
  pub back : List Block
  pub list : xs' ++ (carve n c ++ zs) ≡ front ++ (b ∷ back)
  pub place : total front ≡ total xs
  pub apart : (total xs + b.size ≤ total xs') ⊎ (total xs' + c.size ≤ total xs)

total-carve : (n : ℕ) (c : Block) → n ≤ c.size → total (carve n c) ≡ c.size
total-carve n c h = ground arith

pub granted-le : (n : ℕ) (c : Block) → n ≤ c.size → granted n c ≤ c.size
granted-le n c h = ground arith

pub carve-IsKept :
    (n : ℕ) (xs : List Block) (b : Block) (ys : List Block) (xs' : List Block) (c : Block)
    (zs : List Block)
    → xs ++ (b ∷ ys) ≡ xs' ++ (c ∷ zs)
    → b.used ≡ true
    → c.used ≡ false
    → n ≤ c.size
    → IsKept n xs b xs' c zs
carve-IsKept n [] b ys [] c zs e u f h =
    let same : b ≡ c = cc in absurd (true≢false (sym u ∙ ap (λ (d : Block). d.used) same ∙ f))
carve-IsKept n [] b ys (x ∷ xs') c zs e u f h =
    let same : x ≡ b = cc in
    record {
      front = [];
      back = xs' ++ (carve n c ++ zs);
      list = ap (λ d. d ∷ (xs' ++ (carve n c ++ zs))) same;
      place = refl;
      apart = inl (omega (arith, ap (λ (d : Block). d.size) same));
    }
carve-IsKept n (x ∷ xs) b ys [] c zs e u f h =
    let rest : zs ≡ xs ++ (b ∷ ys) = cc in
    let same : x ≡ c = cc in
    record {
      front = carve n c ++ xs;
      back = ys;
      list = ap (λ l. carve n c ++ l) rest ∙ sym (append_assoc (carve n c) xs (b ∷ ys));
      place =
          total-append (carve n c) xs
          ∙ omega (arith, total-carve n c h, ap (λ (d : Block). d.size) same);
      apart = inr (omega (arith, ap (λ (d : Block). d.size) same));
    }
carve-IsKept n (x ∷ xs) b ys (x' ∷ xs') c zs e u f h =
    let tails : xs ++ (b ∷ ys) ≡ xs' ++ (c ∷ zs) = cc in
    let same : x ≡ x' = cc in
    let k = carve-IsKept n xs b ys xs' c zs tails u f h in
    record {
      front = x' ∷ k.front;
      back = k.back;
      list = ap (λ l. x' ∷ l) k.list;
      place = omega (arith, k.place, ap (λ (d : Block). d.size) same);
      apart = shift (ap (λ (d : Block). d.size) same) k.apart;
    }
  where
    shift :
        x.size ≡ x'.size
        → (total xs + b.size ≤ total xs') ⊎ (total xs' + c.size ≤ total xs)
        → (total (x ∷ xs) + b.size ≤ total (x' ∷ xs'))
          ⊎ (total (x' ∷ xs') + c.size ≤ total (x ∷ xs))
    shift q (inl p) = inl (omega arith)
    shift q (inr p) = inr (omega arith)
