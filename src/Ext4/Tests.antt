-- ===== src/Ext4/Tests.antt =====
-- The theorems on kernel/src/fs/ext4/ext4.c at a small device.
mod Small
use freecore.Prelude.{
  ℕ, suc, ◌+◌, ◌-◌, ◌*◌, ◌%◌, ◌≡◌, refl, arith, true, false, ◌&&◌, ◌==◌, ltb, leb, if◌then◌else◌,
  List, [], ◌∷◌, replicate, length-replicate, ap, pos, is_negative,
}
use freecore.Memory.{Ptr, null, word_mod}
use freecore.Vfs.Types.{World, Ops, Vfs, no_fd}
use freecore.Vfs.Files.{vfs_read}
use freecore.Vfs.Files.Position.{IsOpen, entry_of}
use freecore.Ext4.Layout.{Buffer, number, field, offset_of, width_of, size_of, copy_bytes}
use freecore.Ext4.Device.{Services, Fs, ext4_read_block, ext4_read_inode}
use freecore.Ext4.Device.Count.{IsCounted, one}
use freecore.Ext4.Extents.{file_size}
use freecore.Ext4.Extents.File.{IsReadable}
use freecore.Ext4.Extents.Tree.{IsDisk, IsTree, leaf, IsTree-IsReadable}
use freecore.Ext4.Dirs.{Dirent}
use freecore.Ext4.Dirs.Entries.{used}
use freecore.Ext4.Nodes.{Driven, Stat, node_of, ext4_create_vfs_node}
use freecore.Ext4.Operations.{ext4_read, ext4_write, ext4_readdir, ext4_finddir, ext4_ops_table}
use freecore.Ext4.Operations.Count.{Keeps, operations-live}
use freecore.Ext4.Operations.Read.{IsFile, vfs_read-file_byte}
use freecore.Ext4.Files.Bytes.{file_byte}
use freecore.Ext4.Files.Read.{bytes_left}
use freecore.Ext4.Mount.{ext4_mount, ext4_unmount, table_loop, with_superblock}
use freecore.Ext4.Mount.Released.{ext4_unmount-ext4_mount}
use freecore.Ext4.Files.{ext4_write_file_data}
use freecore.Ext4.Files.Again.{ext4_write_file_data-fails}
use freecore.Ext4.Tests.Small.{
  stacking, Holds, HasRoom, counting, fresh, counting-IsCounted, small_fs, small_inode, small_disk,
  small_disk-IsDisk, no_stat, small_world, small_vfs,
}

ext4_write_file_data-fails_example :
    let (result, raw') = (ext4_write_file_data stacking small_fs small_inode 0 5 small_inode 0).0 in
    (is_negative result ≡ true) × (raw' ≡ small_inode)
unfolding number field offset_of width_of
ext4_write_file_data-fails_example =
    ext4_write_file_data-fails stacking small_fs small_inode 0 5 small_inode 0 refl (omega arith)
      (omega arith) (omega arith)

small_inode-IsTree :
    IsTree stacking HasRoom small_fs small_disk small_disk-IsDisk small_inode (λ c. 3)
unfolding number field offset_of width_of size_of copy_bytes
small_inode-IsTree = record {
  extents = refl;
  flag = refl;
  magic = refl;
  maps = λ m c h.
      let first : c ≡ 0 = omega arith in
      rw first (
        leaf 0 (omega arith)
          (λ j u. let none_before : j ≡ 0 = omega arith in rw none_before (omega arith))
          (omega arith) (omega arith) (λ j u. absurd (omega arith)));
}

IsTree-IsReadable_example : IsReadable stacking HasRoom small_fs small_inode (λ c. small_disk 3)
IsTree-IsReadable_example =
    IsTree-IsReadable stacking HasRoom small_fs small_disk small_disk-IsDisk small_inode (λ c. 3)
      small_inode-IsTree

-- The two entries of the directory in block 3, `a` and `b`.
abbrev small_places : ℕ → List ℕ
small_places c = 0 ∷ 12 ∷ []

operations-live_example :
    let w = small_world fresh in
    let (found, w') = ext4_finddir counting 80 (λ i. 0) 32 (0x61 ∷ []) w in
    Keeps (λ w. w.1 2) w (ext4_read counting 32 0 5 4096 w).1
    × Keeps (λ w. w.1 2) w (ext4_write counting 32 0 5 4096 w).1
    × Keeps (λ w. w.1 2) w (ext4_readdir counting 32 1 8192 w).1
    × (w'.fs.rest.1 2
        ≡ (if found == null then 0 else 0 + one 2 found + one 2 (w'.nodes found).private_data))
operations-live_example =
    operations-live counting 2 (λ w. w.1 2) (counting-IsCounted 2) 80 (λ i. 0) 32 0 5 4096 1 8192
      (0x61 ∷ []) (small_world fresh)

mounts : is_negative (ext4_mount counting 80 (λ i. 0) 1 0 (small_world fresh)).0.0 ≡ false
unfolding ext4_mount table_loop with_superblock ext4_create_vfs_node ext4_read_inode ext4_read_block
    copy_bytes number field offset_of width_of size_of
mounts = refl

ext4_unmount-ext4_mount_example :
    let (got, w') = ext4_mount counting 80 (λ i. 0) 1 0 (small_world fresh) in
    (ext4_unmount counting got.1 w').fs.rest.1 4 ≡ 0 + one 4 got.1
ext4_unmount-ext4_mount_example =
    ext4_unmount-ext4_mount counting 4 (λ w. w.1 4) (counting-IsCounted 4) 80 (λ i. 0) 1 0
      (small_world fresh) mounts

small_vfs-IsOpen : IsOpen small_vfs 0
small_vfs-IsOpen = record {
  size = ap suc (length-replicate 255 no_fd);
  inside = omega arith;
  used = refl;
}

file_size-small_inode : file_size small_inode ≡ 1024
unfolding number field offset_of width_of
file_size-small_inode = refl

small_world-IsFile : IsFile stacking HasRoom (small_world 0) 32 (λ c. small_disk 3)
small_world-IsFile = record {
  node_there = λ e. absurd (omega arith);
  info_there = λ e. absurd (omega arith);
  some_size = omega arith;
  small = omega arith;
  int = omega (arith, file_size-small_inode);
  blocks = IsTree-IsReadable_example;
  spare = 0;
  held = [];
  ready = (omega arith, refl);
}

abbrev ops_at_80 : Ptr → Ops (Driven ℕ)
ops_at_80 p = ext4_ops_table stacking 80 (λ i. 0)

vfs_read-file_byte_example :
    let n = bytes_left small_inode 3 5 in
    let (count, s') = vfs_read ops_at_80 (pos 0) 4096 5 small_vfs in
    (count ≡ n)
    × ((a : Ptr)
        → s'.world.fs.memory a ≡ (
            if leb 4096 a && ltb a (4096 + n)
            then file_byte small_fs (λ c. small_disk 3) (3 + (a - 4096))
            else 0))
    × ((entry_of s' 0).position ≡ 3 + n)
vfs_read-file_byte_example =
    vfs_read-file_byte stacking HasRoom 80 (λ i. 0) ops_at_80 small_vfs 0 (λ c. small_disk 3) 4096 5
      refl (λ e. absurd (omega arith)) refl small_vfs-IsOpen small_world-IsFile
      (λ e. absurd (omega arith)) (omega (arith, file_size-small_inode)) (omega arith) (omega arith)
