-- ===== src/Drivers/Registry.antt =====
-- The operations of kernel/src/drivers/driversys.c. What is printed is left out.
pub mod Slots
pub mod Register
use freecore.Prelude.{
  ℕ, zero, suc, ◌+◌, ◌-◌, Bool, true, false, not, ◌&&◌, ◌||◌, ◌==◌, leb, if◌then◌else◌, Option,
  none, some, List, ℤ, pos, minus_one,
}
use freecore.Memory.{Ptr, null}
use freecore.Minstd.Strings.{strcmp}
use freecore.Drivers.Types.{
  max_drivers_per_class, device_class_max, DriverState, unloaded, initializing, ready, error,
  Driver, World, DriverOps, Registry, find_op, set_state, set_class,
}

abbrev pub is_zero : ℤ → Bool
is_zero (pos n) = n == 0
is_zero _ = false

abbrev pub is_none : Option (List ℕ) → Bool
is_none none = true
is_none (some s) = false

-- `row[i] = p`
abbrev pub put : (ℕ → Ptr) → ℕ → Ptr → ℕ → Ptr
put row i p k = if k == i then p else row k

-- `strcmp(driver->name, name) == 0`; `strcmp` answers 0 to NULL.
abbrev pub has_name : Option (List ℕ) → List ℕ → Bool
has_name none name = true
has_name (some s) name = is_zero (strcmp s name)

-- The search for a driver, with the rounds left and the index.
pub find_slot : (ℕ → Ptr) → Ptr → ℕ → ℕ → Option ℕ
find_slot row driver zero i = none
find_slot row driver (suc rounds) i =
    if row i == driver then some i else find_slot row driver rounds (i + 1)

-- `for (j = i; ...; j++) row[j] = row[j + 1];`, with the rounds left
pub shift_slots : ℕ → ℕ → (ℕ → Ptr) → ℕ → Ptr
shift_slots zero j row = row
shift_slots (suc rounds) j row = shift_slots rounds (j + 1) (put row j (row (j + 1)))

-- The search for a name: the first slot that is not NULL and whose driver has it.
pub find_name : (Ptr → Driver) → (ℕ → Ptr) → List ℕ → ℕ → ℕ → Ptr
find_name drivers row name zero i = null
find_name drivers row name (suc rounds) i =
    if not (row i == null) && has_name (drivers (row i)).name name
    then row i
    else find_name drivers row name rounds (i + 1)

module _ {W : Type 0} where
  unfoldable device_driver_init : Registry W → ℤ × Registry W
  device_driver_init s = (pos 0, record s { drivers = λ c i. null; driver_count = λ c. 0 })

  -- What follows the call of `probe`.
  abbrev pub probed : Ptr → ℤ × Registry W → ℤ × Registry W
  probed driver (result, s) =
      if is_zero result
      then (pos 0, set_state driver ready s)
      else (result, set_state driver error s)

  abbrev pub in_registry : {A : Type 0} → Registry W → A × World W → A × Registry W
  in_registry s (r, w) = (r, record s { world = w })

  abbrev pub probe_driver : Option (Ptr → World W → ℤ × World W) → Ptr → Registry W → ℤ × Registry W
  probe_driver none driver s = (pos 0, set_state driver ready s)
  probe_driver (some f) driver s = probed driver (in_registry s (f driver s.world))

  -- The driver in the next slot of its class, marked as initializing.
  abbrev pub entered : Ptr → ℕ → Registry W → Registry W
  entered driver c s =
      set_state driver initializing
        (set_class c (put (s.drivers c) (s.driver_count c) driver) (s.driver_count c + 1) s)

  -- A driver's `remove`, its result dropped.
  abbrev pub call_remove : Option (Ptr → World W → ℤ × World W) → Ptr → Registry W → Registry W
  call_remove none driver s = s
  call_remove (some f) driver s = record s { world = (f driver s.world).1 }

  abbrev pub taken_out : ℕ → ℕ → Registry W → Registry W
  taken_out c i s =
      set_class c (shift_slots (s.driver_count c - 1 - i) i (s.drivers c)) (s.driver_count c - 1) s

  unfoldable device_driver_find : Option (List ℕ) → ℕ → Registry W → Ptr
  unfolding find_name
  device_driver_find none device_class s = null
  device_driver_find (some name) device_class s =
      if leb device_class_max device_class
      then null
      else find_name s.world.drivers (s.drivers device_class) name (s.driver_count device_class) 0

  -- The loop of `device_driver_enumerate`, with the rounds left, the index and the count so far.
  enumerate_loop : (Ptr → World W → ℤ × World W) → (ℕ → Ptr) → ℕ → ℕ → ℕ → World W → ℕ × World W
  enumerate_loop callback row zero i processed w = (processed, w)
  enumerate_loop callback row (suc rounds) i processed w =
      let (result, w') = callback (row i) w in
      let next = enumerate_loop callback row rounds (i + 1) (processed + 1) w' in
      let skipped = enumerate_loop callback row rounds (i + 1) processed w in
      if row i == null then skipped else if is_zero result then next else (processed, w')

  abbrev counted : Registry W → ℕ × World W → ℤ × Registry W
  counted s (processed, w) = (pos processed, record s { world = w })

  unfoldable device_driver_enumerate :
      ℕ → Option (Ptr → World W → ℤ × World W) → Registry W → ℤ × Registry W
  unfolding enumerate_loop
  device_driver_enumerate device_class none s = (minus_one, s)
  device_driver_enumerate device_class (some callback) s =
      if leb device_class_max device_class
      then (minus_one, s)
      else counted s (
          enumerate_loop callback (s.drivers device_class) (s.driver_count device_class) 0 0
            s.world)

module _ {W : Type 0} (ops_at : Ptr → DriverOps W) where
  unfoldable pub device_driver_register : Ptr → Registry W → ℤ × Registry W
  device_driver_register driver s =
      let d = s.world.drivers driver in
      if (driver == null) || is_none d.name || leb device_class_max d.device_class
      then (minus_one, s)
      else if leb max_drivers_per_class (s.driver_count d.device_class)
      then (minus_one, s)
      else probe_driver (find_op ops_at (λ o. o.probe) d) driver (entered driver d.device_class s)

  -- What follows the search: `remove`, the mark, and the shift of the drivers behind.
  abbrev pub unregister_at : Ptr → ℕ → Option ℕ → Registry W → ℤ × Registry W
  unregister_at driver c none s = (minus_one, s)
  unregister_at driver c (some i) s =
      let removed =
        call_remove (find_op ops_at (λ o. o.remove) (s.world.drivers driver)) driver s in
      (pos 0, taken_out c i (set_state driver unloaded removed))

  pub device_driver_unregister : Ptr → Registry W → ℤ × Registry W
  unfolding find_slot shift_slots
  device_driver_unregister driver s =
      let c = (s.world.drivers driver).device_class in
      if (driver == null) || leb device_class_max c
      then (minus_one, s)
      else unregister_at driver c (find_slot (s.drivers c) driver (s.driver_count c) 0) s
