-- ===== src/Keyboard/Buffer/Queue.antt =====
-- The ring buffer of kernel/src/arch/x86/keyboard.c is a queue of at most KB_BUFFER_SIZE scancodes.
use freecore.Prelude.{
  ℕ, zero, suc, ◌+◌, ◌-◌, ◌%◌, ◌≤◌, ◌<◌, ◌≡◌, refl, ap, ap₂, subst, ◌∙◌, false, ◌==◌, ltb,
  if◌then◌else◌, Option, none, some, List, [], ◌∷◌, ◌++◌, length, set, get_or, length-set,
  get_or-set_self, get_or-set_ne, arith, Bool-cases, inl, inr,
}
use freecore.Keyboard.Buffer.{kb_buffer_size, KbBuffer, kb_buffer_add, kb_buffer_get}

-- The indices lie in the array, and the head is `count` places behind the tail.
pub record IsBuffer (b : KbBuffer) : Type 0 where
  pub size : length b.codes ≡ 32
  pub tail_inside : b.tail < 32
  pub bounded : b.count ≤ 32
  pub apart : b.head ≡ (b.tail + b.count) % 32

-- The `n` scancodes from the place `t` on.
unfoldable pub from : List ℕ → ℕ → ℕ → List ℕ
from codes t zero = []
from codes t (suc n) = get_or codes t 0 ∷ from codes ((t + 1) % 32) n

-- What the buffer holds, oldest first.
abbrev pub queue : KbBuffer → List ℕ
queue b = from b.codes b.tail b.count

from-snoc :
    (codes : List ℕ) (t n : ℕ)
    → t < 32
    → from codes t (suc n) ≡ from codes t n ++ (get_or codes ((t + n) % 32) 0 ∷ [])
unfolding from
from-snoc codes t zero lt =
    let e : t ≡ (t + 0) % 32 = omega arith in ap (λ i. get_or codes i 0 ∷ []) e
from-snoc codes t (suc n) lt =
    let e : ((t + 1) % 32 + n) % 32 ≡ (t + suc n) % 32 = omega arith in
    ap (λ l. get_or codes t 0 ∷ l)
      (from-snoc codes ((t + 1) % 32) n (omega arith)
        ∙ ap (λ i. from codes ((t + 1) % 32) n ++ (get_or codes i 0 ∷ [])) e)

-- A write `m` places behind the tail leaves the `n` scancodes in front of it.
from-set :
    (codes : List ℕ) (v t n m : ℕ)
    → t < 32
    → n ≤ m
    → m < 32
    → from (set codes ((t + m) % 32) v) t n ≡ from codes t n
unfolding from
from-set codes v t zero m lt le small = refl
from-set codes v t (suc n) m lt le small =
    let e : ((t + 1) % 32 + (m - 1)) % 32 ≡ (t + m) % 32 = omega arith in
    ap₂ ◌∷◌ (get_or-set_ne codes ((t + m) % 32) t v 0 (omega arith)) (
      subst (λ i. from (set codes i v) ((t + 1) % 32) n ≡ from codes ((t + 1) % 32) n) e
        (from-set codes v ((t + 1) % 32) n (m - 1) (omega arith) (omega arith) (omega arith)))

-- `kb_buffer_add` of a buffer that is not full puts the scancode behind the others; of a full one it
-- drops it and changes nothing. The buffer stays well-formed.
pub kb_buffer_add-queue :
    (scancode : ℕ) (b : KbBuffer)
    → IsBuffer b
    → IsBuffer (kb_buffer_add scancode b)
      × (queue (kb_buffer_add scancode b)
          ≡ (if ltb b.count kb_buffer_size then queue b ++ (scancode ∷ []) else queue b))
unfolding kb_buffer_add
kb_buffer_add-queue scancode b v = elim (Bool-cases (ltb b.count kb_buffer_size)) [
  | inr e ↦ simp e (v, refl)
  | inl e ↦
      let small : b.count < 32 = ground arith in
      let next : b.count + 1 ≡ suc b.count = omega arith in
      let tail = v.tail_inside in
      simp e (
        record {
          size = length-set b.codes b.head scancode ∙ v.size;
          tail_inside = tail;
          bounded = omega arith;
          apart = omega (arith, v.apart);
        },
        ap (from (set b.codes b.head scancode) b.tail) next
            ∙ from-snoc (set b.codes b.head scancode) b.tail b.count tail
            ∙ ap₂ (λ l x. l ++ (x ∷ []))
                (ap (λ h. from (set b.codes h scancode) b.tail b.count) v.apart
                  ∙ from-set b.codes scancode b.tail b.count b.count tail (omega arith) small)
                (ap (λ h. get_or (set b.codes h scancode) ((b.tail + b.count) % 32) 0) v.apart
                  ∙ get_or-set_self b.codes ((b.tail + b.count) % 32) scancode 0
                      (omega (arith, v.size))),
      )
]

-- The answer of `kb_buffer_get`, from what the buffer held.
abbrev pub GetAnswer : List ℕ → Option ℕ × KbBuffer → Type 0
GetAnswer [] (r, b) = (r ≡ none) × (queue b ≡ [])
GetAnswer (x ∷ xs) (r, b) = (r ≡ some x) × (queue b ≡ xs)

-- `kb_buffer_get` takes the oldest scancode and leaves the others, or reports that there is none. The
-- buffer stays well-formed.
pub kb_buffer_get-queue :
    (b : KbBuffer)
    → IsBuffer b
    → IsBuffer (kb_buffer_get b).1 × GetAnswer (queue b) (kb_buffer_get b)
unfolding kb_buffer_get from
kb_buffer_get-queue b v = at_count b.count refl
  where
    at_count :
        (n : ℕ)
        → b.count ≡ n
        → IsBuffer (kb_buffer_get b).1 × GetAnswer (from b.codes b.tail n) (kb_buffer_get b)
    at_count zero e = simp e (v, (refl, refl))
    at_count (suc n) e =
        let nonzero : (b.count == 0) ≡ false = ground arith in
        let rest : b.count - 1 ≡ n = omega arith in
        simp nonzero (
          record {
            size = v.size;
            tail_inside = omega arith;
            bounded = omega (arith, v.bounded);
            apart = omega (arith, v.apart, v.tail_inside, v.bounded);
          },
          (refl, ap (from b.codes ((b.tail + 1) % 32)) rest),
        )
