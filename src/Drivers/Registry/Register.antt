-- ===== src/Drivers/Registry/Register.antt =====
-- What `device_driver_register` and `device_driver_unregister` of kernel/src/drivers/driversys.c do to
-- the drivers of a class, as a list.
use freecore.Prelude.{
  ℕ, suc, ◌+◌, ◌-◌, ◌<◌, ◌≡◌, ◌≢◌, refl, ap, ◌∙◌, subst, true, false, ◌==◌, leb, if◌then◌else◌,
  Option, none, some, List, [], ◌∷◌, ◌++◌, ℤ, pos, minus_one, arith, Bool-cases, Option-cases, inl,
  inr, ◌⊎◌,
}
use freecore.Memory.{Ptr, null}
use freecore.Drivers.Types.{
  max_drivers_per_class, device_class_max, unloaded, ready, error, World, DriverOps, Registry,
  find_op, set_state,
}
use freecore.Drivers.Registry.{
  is_zero, is_none, put, find_slot, shift_slots, probe_driver, entered, call_remove, taken_out,
  device_driver_register, device_driver_unregister,
}
use freecore.Drivers.Registry.Slots.{
  row_from, remove_first, row_from-put, shift-find_slot, stands, stands-append, stands-find_slot,
  remove_first-append,
}

-- The drivers of a class, in the order of their slots.
abbrev pub registered : {W : Type 0} → Registry W → ℕ → List Ptr
registered s c = row_from (s.drivers c) 0 (s.driver_count c)

module _ {W : Type 0} where
  -- The driver `p` was put behind those of the class `c`; its state is that of the result.
  pub record IsEntered (s : Registry W) (p : Ptr) (c : ℕ) (r : ℤ × Registry W) : Type 0 where
    pub last : registered r.1 c ≡ registered s c ++ (p ∷ [])
    pub others : (k : ℕ) → k ≢ c → registered r.1 k ≡ registered s k
    pub state : (r.1.world.drivers p).state ≡ (if is_zero r.0 then ready else error)

  -- The same of the tables alone.
  HasLast : Registry W → Ptr → ℕ → Registry W → Type 0
  HasLast s p c s' =
      (registered s' c ≡ registered s c ++ (p ∷ []))
      × ((k : ℕ) → k ≢ c → registered s' k ≡ registered s k)

  entered-HasLast : (p : Ptr) (c : ℕ) (s : Registry W) → HasLast s p c (entered p c s)
  unfolding HasLast
  entered-HasLast p c s =
      let here : (c == c) ≡ true = ground arith in
      let more : s.driver_count c + 1 ≡ suc (s.driver_count c) = omega arith in
      let place : s.driver_count c ≡ 0 + s.driver_count c = omega arith in
      (
        simp here (
            ap (row_from (put (s.drivers c) (s.driver_count c) p) 0) more
            ∙ ap (λ i. row_from (put (s.drivers c) i p) 0 (suc (s.driver_count c))) place
            ∙ row_from-put (s.drivers c) p 0 (s.driver_count c)),
        λ k ne. let there : (k == c) ≡ false = ground arith in simp there refl,
      )

  probe_driver-IsEntered :
      (o : Option (Ptr → World W → ℤ × World W)) (p : Ptr) (c : ℕ) (s s' : Registry W)
      → HasLast s p c s'
      → IsEntered s p c (probe_driver o p s')
  unfolding HasLast
  probe_driver-IsEntered none p c s s' h =
      let here : (p == p) ≡ true = ground arith in
      record { last = h.0; others = h.1; state = simp here refl }
  probe_driver-IsEntered (some f) p c s s' h = elim (Bool-cases (is_zero (f p s'.world).0)) [
    | inl e ↦
        let here : (p == p) ≡ true = ground arith in
        rw e (record { last = h.0; others = h.1; state = simp here refl })
    | inr e ↦
        let here : (p == p) ≡ true = ground arith in
        rw e (record { last = h.0; others = h.1; state = simp (here, e) refl })
  ]

  -- The driver `p` was taken out of the class `c` and marked as unloaded.
  pub record IsTakenOut (s : Registry W) (p : Ptr) (c : ℕ) (r : ℤ × Registry W) : Type 0 where
    pub success : r.0 ≡ pos 0
    pub left : registered r.1 c ≡ remove_first p (registered s c)
    pub others : (k : ℕ) → k ≢ c → registered r.1 k ≡ registered s k
    pub state : (r.1.world.drivers p).state ≡ unloaded

  taken_out-registered :
      (p : Ptr) (c i : ℕ) (s : Registry W)
      → find_slot (s.drivers c) p (s.driver_count c) 0 ≡ some i
      → registered (taken_out c i s) c ≡ remove_first p (registered s c)
  taken_out-registered p c i s e =
      let here : (c == c) ≡ true = ground arith in
      let start : s.driver_count c - 1 - i ≡ 0 + s.driver_count c - 1 - i = omega arith in
      simp here (
        ap (λ n. row_from (shift_slots n i (s.drivers c)) 0 (s.driver_count c - 1)) start
        ∙ (shift-find_slot (s.drivers c) p (s.driver_count c) 0 i e).2)

  found-IsTakenOut :
      (o : Option (Ptr → World W → ℤ × World W)) (p : Ptr) (c i : ℕ) (s : Registry W)
      → find_slot (s.drivers c) p (s.driver_count c) 0 ≡ some i
      → IsTakenOut s p c (pos 0, taken_out c i (set_state p unloaded (call_remove o p s)))
  found-IsTakenOut none p c i s e =
      let here : (p == p) ≡ true = ground arith in
      record {
        success = refl;
        left = taken_out-registered p c i s e;
        others = λ k ne. let there : (k == c) ≡ false = ground arith in simp there refl;
        state = simp here refl;
      }
  found-IsTakenOut (some f) p c i s e =
      let here : (p == p) ≡ true = ground arith in
      record {
        success = refl;
        left = taken_out-registered p c i s e;
        others = λ k ne. let there : (k == c) ≡ false = ground arith in simp there refl;
        state = simp here refl;
      }

module _ {W : Type 0} (ops_at : Ptr → DriverOps W) where
  -- A driver with a name, of a class that is not full, is put behind those of its class; the other
  -- classes are as they were. This is so whatever `probe` answers: if the result is 0 the driver is
  -- ready, and otherwise it is marked as being in error, but stays in the registry.
  pub device_driver_register-IsEntered :
      (p : Ptr) (s : Registry W)
      → p ≢ null
      → is_none (s.world.drivers p).name ≡ false
      → (s.world.drivers p).device_class < device_class_max
      → s.driver_count (s.world.drivers p).device_class < max_drivers_per_class
      → IsEntered s p (s.world.drivers p).device_class (device_driver_register ops_at p s)
  unfolding device_driver_register
  device_driver_register-IsEntered p s there named known room =
      let d = s.world.drivers p in
      let e1 : (p == null) ≡ false = ground arith in
      let e2 : leb device_class_max d.device_class ≡ false = ground arith in
      let e3 : leb max_drivers_per_class (s.driver_count d.device_class) ≡ false = ground arith in
      simp (e1, named, e2, e3)
        (probe_driver-IsEntered (find_op ops_at (λ o. o.probe) d) p d.device_class s
          (entered p d.device_class s) (entered-HasLast p d.device_class s))

  -- A driver is taken out of its class at the first place where it stands, marked as unloaded, and the
  -- drivers behind it move up; the other classes are as they were. One that does not stand there is
  -- refused, and nothing changes.
  pub device_driver_unregister-IsTakenOut :
      (p : Ptr) (s : Registry W)
      → p ≢ null
      → (s.world.drivers p).device_class < device_class_max
      → IsTakenOut s p (s.world.drivers p).device_class (device_driver_unregister ops_at p s)
        ⊎ ((device_driver_unregister ops_at p s ≡ (minus_one, s))
            × (stands p (registered s (s.world.drivers p).device_class) ≡ false))
  unfolding device_driver_unregister
  device_driver_unregister-IsTakenOut p s there known =
      let c = (s.world.drivers p).device_class in
      let e1 : (p == null) ≡ false = ground arith in
      let e2 : leb device_class_max c ≡ false = ground arith in
      elim (Option-cases (find_slot (s.drivers c) p (s.driver_count c) 0)) [
        | inl e ↦
            inr (simp (e1, e2, e) refl, stands-find_slot (s.drivers c) p (s.driver_count c) 0 e)
        | inr (i, e) ↦ inl (
            simp (e1, e2, e)
              (found-IsTakenOut (find_op ops_at (λ o. o.remove) (s.world.drivers p)) p c i s e))
      ]

  -- A driver that is registered, with a `probe` that leaves its class alone, and then unregistered
  -- leaves its class as it was, if it did not stand there before.
  pub device_driver_unregister-register :
      (p : Ptr) (s : Registry W)
      → p ≢ null
      → is_none (s.world.drivers p).name ≡ false
      → (s.world.drivers p).device_class < device_class_max
      → s.driver_count (s.world.drivers p).device_class < max_drivers_per_class
      → stands p (registered s (s.world.drivers p).device_class) ≡ false
      → ((device_driver_register ops_at p s).1.world.drivers p).device_class
        ≡ (s.world.drivers p).device_class
      → registered
          (device_driver_unregister ops_at p (device_driver_register ops_at p s).1).1
          (s.world.drivers p).device_class
        ≡ registered s (s.world.drivers p).device_class
  device_driver_unregister-register p s there named known room absent kept =
      let c = (s.world.drivers p).device_class in
      let s1 = (device_driver_register ops_at p s).1 in
      let entry = device_driver_register-IsEntered p s there named known room in
      let known1 : (s1.world.drivers p).device_class < device_class_max = omega (arith, kept) in
      elim (device_driver_unregister-IsTakenOut p s1 there known1) [
        | inl out ↦
            subst
              (λ k.
                registered (device_driver_unregister ops_at p s1).1 k
                ≡ remove_first p (registered s1 k))
              kept out.left
            ∙ ap (remove_first p) entry.last
            ∙ remove_first-append p (registered s c) absent
        | inr (same, gone) ↦
            let here : stands p (registered s1 c) ≡ true =
              ap (stands p) entry.last ∙ stands-append p (registered s c) in
            let not_here : stands p (registered s1 c) ≡ false =
              subst (λ k. stands p (registered s1 k) ≡ false) kept gone in
            cc
      ]
