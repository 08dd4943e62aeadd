-- ===== src/Drivers/Types.antt =====
-- The data of kernel/src/drivers/driversys.h and the registry of kernel/src/drivers/driversys.c. A
-- driver is known by its address, NULL is 0, and a name is the list of its characters. A driver's
-- functions may change every driver and whatever else there is, of the type `W`; they are taken not
-- to register or unregister drivers.
use freecore.Prelude.{ℕ, ◌==◌, if◌then◌else◌, Option, none, List, ℤ}
use freecore.Memory.{Ptr, null}

abbrev pub max_drivers_per_class : ℕ
max_drivers_per_class = 32

-- The last of the enumeration `device_class_t`.
abbrev pub device_class_max : ℕ
device_class_max = 8

-- `driver_state_t`
pub data DriverState : Type 0 where
  unloaded : DriverState
  initializing : DriverState
  ready : DriverState
  error : DriverState

-- `device_driver_t`
pub record Driver : Type 0 where
  pub name : Option (List ℕ)
  pub device_class : ℕ
  pub state : DriverState
  pub ops : Ptr
  pub private_data : Ptr

pub record World (W : Type 0) : Type 0 where
  pub drivers : Ptr → Driver
  pub rest : W

-- `driver_ops_t`; a function may be missing.
pub record DriverOps (W : Type 0) : Type 0 where
  pub probe : Option (Ptr → World W → ℤ × World W)
  pub remove : Option (Ptr → World W → ℤ × World W)
  pub suspend : Option (Ptr → World W → ℤ × World W)
  pub resume : Option (Ptr → World W → ℤ × World W)

-- `device_registry`, its arrays as functions of the indices, and the world.
pub record Registry (W : Type 0) : Type 0 where
  pub drivers : ℕ → ℕ → Ptr
  pub driver_count : ℕ → ℕ
  pub world : World W

module _ {W : Type 0} where
  -- `driver->ops && driver->ops->op`, with the tables of functions by their addresses
  abbrev pub find_op {ℓ} :
      {X : Type ℓ} → (Ptr → DriverOps W) → (DriverOps W → Option X) → Driver → Option X
  find_op ops_at op d = if d.ops == null then none else op (ops_at d.ops)

  abbrev pub set_driver : Ptr → Driver → World W → World W
  set_driver p d w = record w { drivers = λ q. if q == p then d else w.drivers q }

  -- `driver->state = state`
  abbrev pub set_state : Ptr → DriverState → Registry W → Registry W
  set_state p state s = record s {
    world = set_driver p (record (s.world.drivers p) { state = state }) s.world;
  }

  -- `device_registry.drivers[class_idx] = row` and `device_registry.driver_count[class_idx] = n`
  abbrev pub set_class : ℕ → (ℕ → Ptr) → ℕ → Registry W → Registry W
  set_class c row n s = record s {
    drivers = λ k. if k == c then row else s.drivers k;
    driver_count = λ k. if k == c then n else s.driver_count k;
  }
