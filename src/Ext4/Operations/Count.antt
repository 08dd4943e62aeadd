-- ===== src/Ext4/Operations/Count.antt =====
-- The allocations of the operations on a node in kernel/src/fs/ext4/ext4.c.
use freecore.Prelude.{ℕ, ◌+◌, ◌≡◌, arith, ◌==◌, if◌then◌else◌}
use freecore.Memory.{Ptr, null}
use freecore.Vfs.Types.{Str, World}
use freecore.Ext4.Layout.{Buffer}
use freecore.Ext4.Device.{Services}
use freecore.Ext4.Device.Count.{IsCounted, one}
use freecore.Ext4.Files.Count.{ext4_read_file_data-live, ext4_write_file_data-live}
use freecore.Ext4.Dirs.Count.{ext4_find_dir_entry-live, list_entry-live}
use freecore.Ext4.Nodes.{Driven}
use freecore.Ext4.Nodes.Count.{ext4_create_vfs_node-live}
use freecore.Ext4.Operations.{ext4_read, ext4_write, ext4_readdir, ext4_finddir}

-- A heap that holds as much as before.
abbrev pub Keeps : {W : Type 0} → (W → ℕ) → World (Driven W) → World (Driven W) → Type 0
Keeps live w w' = live w'.fs.rest ≡ live w.fs.rest

module _ {W : Type 0} (services : Services W) (q : Ptr) (live : W → ℕ)
    (c : IsCounted services q live) (ext4_ops : Ptr) (stack : Buffer) where
  read-Keeps :
      (node offset size buffer : ℕ) (w : World (Driven W))
      → Keeps live w (ext4_read services node offset size buffer w).1
  unfolding ext4_read
  read-Keeps node offset size buffer w = grind (arith, ext4_read_file_data-live services q live c)

  write-Keeps :
      (node offset size buffer : ℕ) (w : World (Driven W))
      → Keeps live w (ext4_write services node offset size buffer w).1
  unfolding ext4_write
  write-Keeps node offset size buffer w = grind (arith, ext4_write_file_data-live services q live c)

  readdir-Keeps :
      (node index dirent : ℕ) (w : World (Driven W))
      → Keeps live w (ext4_readdir services node index dirent w).1
  unfolding ext4_readdir
  readdir-Keeps node index dirent w = grind (arith, list_entry-live services q live c)

  ext4_finddir-live :
      (node : Ptr) (name : Str) (w : World (Driven W))
      → let (found, w') = ext4_finddir services ext4_ops stack node name w in
        live w'.fs.rest ≡ (
          if found == null
          then live w.fs.rest
          else live w.fs.rest + one q found + one q (w'.nodes found).private_data)
  unfolding ext4_finddir
  ext4_finddir-live node name w = grind (
    arith,
    c.on_kmalloc,
    c.on_kfree,
    ext4_find_dir_entry-live services q live c,
    ext4_create_vfs_node-live services q live c ext4_ops stack,
  )

  -- Where `kmalloc`, `kfree` and nothing else change how often an address is allocated, reading, writing
  -- and listing leave every address allocated as often as before, on every path; so does a search that
  -- fails, and one that finds a node leaves that node and the structure that it refers to allocated once
  -- more, and nothing else.
  pub operations-live :
      (node offset size buffer index dirent : ℕ) (name : Str) (w : World (Driven W))
      → let (found, w') = ext4_finddir services ext4_ops stack node name w in
        Keeps live w (ext4_read services node offset size buffer w).1
        × Keeps live w (ext4_write services node offset size buffer w).1
        × Keeps live w (ext4_readdir services node index dirent w).1
        × (live w'.fs.rest ≡ (
            if found == null
            then live w.fs.rest
            else live w.fs.rest + one q found + one q (w'.nodes found).private_data))
  operations-live node offset size buffer index dirent name w = (
    read-Keeps node offset size buffer w,
    write-Keeps node offset size buffer w,
    readdir-Keeps node index dirent w,
    ext4_finddir-live node name w,
  )
