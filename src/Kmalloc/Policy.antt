-- ===== src/Kmalloc/Policy.antt =====
-- The allocator of kernel/src/mm/kmalloc.c as a policy on a list of blocks, with no memory: which
-- block a request takes, how it is cut, and what a release joins.
use freecore.Prelude.{
  ℕ, ◌+◌, ◌-◌, ◌≤◌, ◌≡◌, refl, ap, Bool, true, false, not, ◌&&◌, leb, if◌then◌else◌, Option, none,
  some, List, [], ◌∷◌, ◌++◌, arith, Bool-cases, inl, inr,
}
use freecore.Kmalloc.{min_alloc_size}

-- A block with its header; both count in `size`.
pub record Block : Type 0 where
  pub size : ℕ
  pub used : Bool

abbrev pub block : ℕ → Bool → Block
block n u = record { size = n; used = u }

abbrev pub total : List Block → ℕ
total [] = 0
total (b ∷ bs) = b.size + total bs

abbrev pub used_total : List Block → ℕ
used_total [] = 0
used_total (b ∷ bs) = (if b.used then b.size else 0) + used_total bs

-- A place in the list: the blocks in front, the block, and those behind.
pub record Place : Type 0 where
  pub front : List Block
  pub here : Block
  pub back : List Block

abbrev pub blocks : Place → List Block
blocks w = w.front ++ (w.here ∷ w.back)

abbrev pub fits : ℕ → Block → Bool
fits n b = not b.used && leb n b.size

abbrev pub deeper : Block → Option Place → Option Place
deeper b none = none
deeper b (some w) = some (record w { front = b ∷ w.front })

-- The first free block that is large enough.
unfoldable pub first_fit : ℕ → List Block → Option Place
first_fit n [] = none
first_fit n (b ∷ bs) =
    if fits n b
    then some (record { front = []; here = b; back = bs })
    else deeper b (first_fit n bs)

-- A block is cut where what is left over can hold a header and 16 bytes.
abbrev pub granted : ℕ → Block → ℕ
granted n b = if leb (n + min_alloc_size) b.size then n else b.size

abbrev pub cut_off : ℕ → Block → List Block
cut_off n b = if leb (n + min_alloc_size) b.size then block (b.size - n) false ∷ [] else []

abbrev pub carve : ℕ → Block → List Block
carve n b = block (granted n b) true ∷ cut_off n b

-- A freed block takes in the block behind it, if that is free.
abbrev pub join : ℕ → List Block → List Block
join n [] = block n false ∷ []
join n (c ∷ bs) = if c.used then block n false ∷ c ∷ bs else block (n + c.size) false ∷ bs

pub total-append : (xs ys : List Block) → total (xs ++ ys) ≡ total xs + total ys
total-append [] ys = omega arith
total-append (x ∷ xs) ys = omega (arith, total-append xs ys)

pub used_total-append : (xs ys : List Block) → used_total (xs ++ ys) ≡ used_total xs + used_total ys
used_total-append [] ys = omega arith
used_total-append (x ∷ xs) ys = omega (arith, used_total-append xs ys)

pub used_total-le : (xs : List Block) → used_total xs ≤ total xs
used_total-le [] = omega arith
used_total-le (x ∷ xs) = ground (arith, used_total-le xs)

-- What the search returns is a place of the list, free and large enough.
pub record IsFit (n : ℕ) (bs : List Block) (w : Place) : Type 0 where
  pub split : bs ≡ blocks w
  pub free : w.here.used ≡ false
  pub enough : n ≤ w.here.size

abbrev pub Fits : ℕ → List Block → Option Place → Type 0
Fits n bs none = Unit
Fits n bs (some w) = IsFit n bs w

Fits-deeper :
    (n : ℕ) (b : Block) (bs : List Block) (o : Option Place)
    → Fits n bs o
    → Fits n (b ∷ bs) (deeper b o)
Fits-deeper n b bs none h = tt
Fits-deeper n b bs (some w) h = record {
  split = ap (◌∷◌ b) h.split;
  free = h.free;
  enough = h.enough;
}

pub first_fit-Fits : (n : ℕ) (bs : List Block) → Fits n bs (first_fit n bs)
unfolding first_fit
first_fit-Fits n [] = tt
first_fit-Fits n (b ∷ bs) = elim (Bool-cases (fits n b)) [
  | inl e ↦ rw e (record { split = refl; free = ground arith; enough = ground arith })
  | inr e ↦ rw e (Fits-deeper n b bs (first_fit n bs) (first_fit-Fits n bs))
]

-- If the search fails, no free block is large enough.
pub first_fit-none :
    (n : ℕ) (xs ys : List Block) (b : Block)
    → first_fit n (xs ++ (b ∷ ys)) ≡ none
    → fits n b ≡ false
unfolding first_fit
first_fit-none n [] ys b e = ground arith
first_fit-none n (x ∷ xs) ys b e = ground (arith, first_fit-none n xs ys b)
