-- ===== src/Ext4/Driver.antt =====
-- kernel/src/fs/ext4/ext4.c, the driver of the registry: its functions do nothing.
use freecore.Prelude.{some, none, [], ◌∷◌, ℤ, pos}
use freecore.Memory.{Ptr, null}
use freecore.Drivers.Types.{Driver, DriverOps, Registry, World, unloaded}
use freecore.Drivers.Registry.{device_driver_register}

unfoldable ext4_init : ℤ
ext4_init = pos 0

module _ {W : Type 0} where
  unfoldable ext4_probe_driver : Ptr → World W → ℤ × World W
  unfolding ext4_init
  ext4_probe_driver driver w = (ext4_init, w)

  unfoldable ext4_remove_driver : Ptr → World W → ℤ × World W
  ext4_remove_driver driver w = (pos 0, w)

  abbrev ext4_driver_ops : DriverOps W
  ext4_driver_ops = record {
    probe = some ext4_probe_driver;
    remove = some ext4_remove_driver;
    suspend = none;
    resume = none;
  }

  -- `driver_address` is the address of the driver, `ops_at` the tables of functions by their addresses.
  unfoldable ext4_register_driver : (Ptr → DriverOps W) → Ptr → Registry W → Registry W
  ext4_register_driver ops_at driver_address s = (device_driver_register ops_at driver_address s).1

-- The driver before it is registered; `ops_address` is the address of its functions.
abbrev ext4_driver : Ptr → Driver
ext4_driver ops_address = record {
  name = some (0x65 ∷ 0x78 ∷ 0x74 ∷ 0x34 ∷ 0x5F ∷ 0x66 ∷ 0x73 ∷ []);
  device_class = 1;
  state = unloaded;
  ops = ops_address;
  private_data = null;
}
