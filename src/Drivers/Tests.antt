-- ===== src/Drivers/Tests.antt =====
-- The theorems on kernel/src/drivers/driversys.c at a registry with no driver.
use freecore.Prelude.{ℕ, ◌≡◌, refl, arith, false, none, some, [], ◌∷◌, minus_one, ◌⊎◌}
use freecore.Memory.{Ptr, null}
use freecore.Drivers.Types.{Driver, unloaded, DriverOps, Registry}
use freecore.Drivers.Registry.{device_driver_register, device_driver_unregister}
use freecore.Drivers.Registry.Slots.{stands}
use freecore.Drivers.Registry.Register.{
  registered, IsEntered, IsTakenOut, device_driver_register-IsEntered,
  device_driver_unregister-IsTakenOut,
}

-- A driver whose `probe` fails.
abbrev failing : Ptr → DriverOps ℕ
failing ops = record {
  probe = some (λ p w. (minus_one, w));
  remove = none;
  suspend = none;
  resume = none;
}

abbrev disk : Driver
disk = record {
  name = some (100 ∷ []);
  device_class = 1;
  state = unloaded;
  ops = 7;
  private_data = null;
}

abbrev no_drivers : Registry ℕ
no_drivers = record {
  drivers = λ c i. null;
  driver_count = λ c. 0;
  world = record { drivers = λ p. disk; rest = 0 };
}

device_driver_register-IsEntered_example :
    IsEntered no_drivers 4 1 (device_driver_register failing 4 no_drivers)
device_driver_register-IsEntered_example =
    device_driver_register-IsEntered failing 4 no_drivers (λ e. omega arith) refl (omega arith)
      (omega arith)

device_driver_unregister-IsTakenOut_example :
    IsTakenOut no_drivers 4 1 (device_driver_unregister failing 4 no_drivers)
    ⊎ ((device_driver_unregister failing 4 no_drivers ≡ (minus_one, no_drivers))
        × (stands 4 (registered no_drivers 1) ≡ false))
device_driver_unregister-IsTakenOut_example =
    device_driver_unregister-IsTakenOut failing 4 no_drivers (λ e. omega arith) (omega arith)
