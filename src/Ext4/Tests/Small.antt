-- ===== src/Ext4/Tests/Small.antt =====
-- A device of a few blocks for the tests of kernel/src/fs/ext4/ext4.c. Its superblock describes a
-- filesystem of one group; block 3 is that of a file, or of a directory with two entries; block 4 is
-- a bitmap.
use freecore.Prelude.{
  ℕ, suc, ◌+◌, ◌-◌, ◌*◌, ◌%◌, ◌≤◌, ◌<◌, ◌≡◌, refl, arith, true, List, ℤ, ◌==◌, ltb, if◌then◌else◌,
  [], ◌∷◌, replicate, pos, subst,
}
use freecore.Memory.{Ptr, null, word_mod}
use freecore.Vfs.Types.{World, Vfs, no_fd}
use freecore.Ext4.Layout.{Buffer}
use freecore.Ext4.Device.{Services, Fs, ext4_read_block}
use freecore.Ext4.Device.Count.{IsCounted, one}
use freecore.Ext4.Extents.File.{filled}
use freecore.Ext4.Extents.Tree.{IsDisk}
use freecore.Ext4.Dirs.{Dirent}
use freecore.Ext4.Nodes.{Driven, Stat, node_of}

-- The byte at a place of the device: of the superblock, of the directory, and of the bitmap.
abbrev pub image : Buffer
image k =
    if k == 1044
    then 1
    else if k == 1028
    then 1
    else if k == 1056
    then 1
    else if k == 1064
    then 8
    else if k == 1080
    then 0x53
    else if k == 1081
    then 0xEF
    else if k == 1112
    then 128
    else if k == 3072
    then 11
    else if k == 3076
    then 12
    else if k == 3078
    then 1
    else if k == 3080
    then 0x61
    else if k == 3084
    then 12
    else if k == 3088
    then 0xF4
    else if k == 3089
    then 3
    else if k == 3090
    then 1
    else if k == 3092
    then 0x62
    else if k == 4096
    then 3
    else 0

-- Reading fills the buffer with the bytes of the device.
abbrev read_image : {W : Type 0} → Ptr → ℕ → ℕ → Buffer → W → (ℤ × Buffer) × W
read_image device offset n b w = ((pos 0, λ i. if ltb i n then image (offset + i) else b i), w)

-- A heap of four buffers, which are given back in the reverse order; its state is how many are in use.
abbrev pub stacking : Services ℕ
stacking = record {
  kmalloc = λ n w. if ltb w 4 then ((suc w, λ i. 0), suc w) else ((null, λ i. 0), w);
  kfree = λ p w. if p == w then w - 1 else w;
  read = read_image;
  write = λ device offset n b w. (pos 0, w);
  overrun = λ b w. w;
}

abbrev pub Holds : List Ptr → ℕ → Type 0
Holds [] w = w ≡ 0
Holds (p ∷ held) w = (p ≡ w) × (0 < w) × Holds held (w - 1)

abbrev pub HasRoom : ℕ → List Ptr → ℕ → Type 0
HasRoom n held w = (w + n ≤ 4) × Holds held w

-- A heap that hands out one address after another, with how often each address is in use.
abbrev pub counting : Services (ℕ × (Ptr → ℕ))
counting = record {
  kmalloc = λ n w. ((suc w.0, λ i. 0), (suc w.0, λ q. w.1 q + one q (suc w.0)));
  kfree = λ p w. (w.0, λ q. w.1 q - one q p);
  read = read_image;
  write = λ device offset n b w. (pos 0, w);
  overrun = λ b w. w;
}

abbrev pub fresh : ℕ × (Ptr → ℕ)
fresh = (0, λ q. 0)

pub counting-IsCounted : (q : Ptr) → IsCounted counting q (λ w. w.1 q)
counting-IsCounted q = record {
  on_kmalloc = λ n w. ground arith;
  on_kfree = λ p w h. refl;
  on_read = λ device offset n b w. refl;
  on_overrun = λ b w. refl;
  on_write = λ device offset n b w. refl;
}

-- The superblock has the feature of the extents; the first group has five free blocks, and its bitmap in
-- block 4.
abbrev pub small_fs : Fs
small_fs = record {
  device = 1;
  sb = λ i. if i == 96 then 0x40 else 0;
  block_size = 1024;
  block_count = 8;
  groups_count = 1;
  inodes_per_group = 8;
  blocks_per_group = 8192;
  group_desc_table = 16;
  descriptors = λ i. if i == 0 then 4 else if i == 12 then 5 else 0;
  root_node = null;
}

-- An inode of 1024 bytes, with one extent of one block, the block 3.
abbrev pub small_inode : Buffer
small_inode i =
    if i == 5
    then 4
    else if i == 34
    then 8
    else if i == 40
    then 0x0A
    else if i == 41
    then 0xF3
    else if i == 42
    then 1
    else if i == 56
    then 1
    else if i == 60
    then 3
    else 0

-- The blocks of the device.
abbrev pub small_disk : ℕ → Buffer
small_disk n i = image (n * 1024 % word_mod + i)

pub small_disk-IsDisk : IsDisk stacking HasRoom small_fs small_disk
unfolding ext4_read_block filled
small_disk-IsDisk = record {
  reads = λ n b w {spare} {held} ready. (w, ready, refl);
  room = λ w {spare} {held} ready.
      let (fits, holds) = ready in
      let below : ltb w 4 ≡ true = ground arith in
      let back : w ≡ suc w - 1 = omega arith in
      rw below (
        λ e. absurd (omega arith),
        (omega arith, (refl, omega arith, subst (Holds held) back holds)),
      );
  release = λ p w {spare} {held} ready.
      let (fits, (same, some_used, holds)) = ready in
      let top : (p == w) ≡ true = ground arith in rw top (omega arith, holds);
}

abbrev pub no_dirent : Dirent
no_dirent = record { name = λ i. 0; inode = 0; type = 0 }

abbrev pub no_stat : Stat
no_stat = record {
  st_dev = 0;
  st_ino = 0;
  st_mode = 0;
  st_nlink = 0;
  st_uid = 0;
  st_gid = 0;
  st_rdev = 0;
  st_size = 0;
  st_blksize = 0;
  st_blocks = 0;
  st_atime = 0;
  st_mtime = 0;
  st_ctime = 0;
}

-- Every node is that of the file, with its structure at 48 and the filesystem at 64.
abbrev pub small_world : {W : Type 0} → W → World (Driven W)
small_world w = record {
  nodes = λ p. node_of 80 48 12 small_inode;
  fs = record {
    infos = λ p. record { raw_inode = small_inode; inode_num = 12; fs = 64 };
    mounted = λ p. small_fs;
    memory = λ p. 0;
    dirents = λ p. no_dirent;
    stats = λ p. no_stat;
    rest = w;
  };
}

-- The descriptor 0 is open for the file, at its third byte.
abbrev pub small_vfs : Vfs (Driven ℕ)
small_vfs = record {
  fd_table = record { node = 32; flags = 0; position = 3; used = true } ∷ replicate 255 no_fd;
  mount_table = [];
  root_node = null;
  world = small_world 0;
}
