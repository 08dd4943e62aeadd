-- ===== src/Ext4/Layout.antt =====
-- The structures of kernel/src/fs/ext4/ext4.h. They are packed, so that a structure is the bytes of
-- its fields one behind another, and a pointer to one is a place in a buffer: a layout is the list of
-- the sizes of the fields. A buffer is a function from places to bytes.
pub mod Frame
use freecore.Prelude.{
  ℕ, zero, suc, ◌+◌, ◌-◌, ◌*◌, ◌/◌, ◌%◌, ◌^◌, ◌&&◌, leb, ltb, if◌then◌else◌, List, [], ◌∷◌,
}

abbrev pub Buffer : Type 0
Buffer = ℕ → ℕ

-- The little-endian number in the `n` bytes from `o` on.
unfoldable pub number : ℕ → Buffer → ℕ → ℕ
number zero b o = 0
number (suc n) b o = b o + 256 * number n b (o + 1)

-- The `n` bytes from `o` on set to the lowest bytes of `v`.
unfoldable pub set_number : ℕ → Buffer → ℕ → ℕ → Buffer
set_number n b o v i = if leb o i && ltb i (o + n) then v / 256 ^ (i - o) % 256 else b i

-- `memcpy(dest + d, src + s, n)`, between two buffers, and `memset(dest, 0, n)`
unfoldable pub copy_bytes : Buffer → ℕ → Buffer → ℕ → ℕ → Buffer
copy_bytes dest d src s n i = if leb d i && ltb i (d + n) then src (s + (i - d)) else dest i

unfoldable pub clear_bytes : Buffer → ℕ → Buffer
clear_bytes dest n i = if ltb i n then 0 else dest i

abbrev pub Layout : Type 0
Layout = List ℕ

-- Where the field `k` of a layout begins, and its size.
unfoldable pub offset_of : Layout → ℕ → ℕ
offset_of [] k = 0
offset_of (n ∷ l) zero = 0
offset_of (n ∷ l) (suc k) = n + offset_of l k

unfoldable pub width_of : Layout → ℕ → ℕ
width_of [] k = 0
width_of (n ∷ l) zero = n
width_of (n ∷ l) (suc k) = width_of l k

unfoldable pub size_of : Layout → ℕ
size_of [] = 0
size_of (n ∷ l) = n + size_of l

-- The field `k` of the structure at `p`.
unfoldable pub field : Layout → ℕ → Buffer → ℕ → ℕ
unfolding number offset_of width_of
field l k b p = number (width_of l k) b (p + offset_of l k)

unfoldable pub set_field : Layout → ℕ → Buffer → ℕ → ℕ → Buffer
unfolding set_number offset_of width_of
set_field l k b p v = set_number (width_of l k) b (p + offset_of l k) v

abbrev pub superblock : Layout
superblock =
    4 ∷ 4 ∷ 4 ∷ 4 ∷ 4 ∷ 4 ∷ 4 ∷ 4 ∷ 4 ∷ 4 ∷ 4 ∷ 4 ∷ 4 ∷ 2 ∷ 2 ∷ 2 ∷ 2 ∷ 2 ∷ 2 ∷ 4 ∷ 4 ∷ 4 ∷ 4 ∷ 2
    ∷ 2 ∷ 4 ∷ 2 ∷ 2 ∷ 4 ∷ 4 ∷ 4 ∷ 16 ∷ 16 ∷ 64 ∷ 4 ∷ 2 ∷ 2 ∷ 384 ∷ 4 ∷ []

abbrev pub s_blocks_count_lo : Buffer → ℕ
s_blocks_count_lo sb = field superblock 1 sb 0

abbrev pub s_first_data_block : Buffer → ℕ
s_first_data_block sb = field superblock 5 sb 0

abbrev pub s_log_block_size : Buffer → ℕ
s_log_block_size sb = field superblock 6 sb 0

abbrev pub s_blocks_per_group : Buffer → ℕ
s_blocks_per_group sb = field superblock 8 sb 0

abbrev pub s_inodes_per_group : Buffer → ℕ
s_inodes_per_group sb = field superblock 10 sb 0

abbrev pub s_magic : Buffer → ℕ
s_magic sb = field superblock 15 sb 0

abbrev pub s_inode_size : Buffer → ℕ
s_inode_size sb = field superblock 26 sb 0

abbrev pub s_feature_incompat : Buffer → ℕ
s_feature_incompat sb = field superblock 29 sb 0

abbrev pub s_feature_ro_compat : Buffer → ℕ
s_feature_ro_compat sb = field superblock 30 sb 0

abbrev pub s_blocks_count_hi : Buffer → ℕ
s_blocks_count_hi sb = field superblock 34 sb 0

abbrev pub s_desc_size : Buffer → ℕ
s_desc_size sb = field superblock 35 sb 0

abbrev pub group_desc : Layout
group_desc =
    4 ∷ 4 ∷ 4 ∷ 2 ∷ 2 ∷ 2 ∷ 2 ∷ 4 ∷ 2 ∷ 2 ∷ 2 ∷ 2 ∷ 4 ∷ 4 ∷ 4 ∷ 2 ∷ 2 ∷ 2 ∷ 2 ∷ 4 ∷ 2 ∷ 2 ∷ 4 ∷ []

abbrev pub bg_block_bitmap_lo : Buffer → ℕ → ℕ
bg_block_bitmap_lo b p = field group_desc 0 b p

abbrev pub bg_inode_table_lo : Buffer → ℕ → ℕ
bg_inode_table_lo b p = field group_desc 2 b p

abbrev pub bg_free_blocks_count_lo : Buffer → ℕ → ℕ
bg_free_blocks_count_lo b p = field group_desc 3 b p

abbrev pub bg_block_bitmap_hi : Buffer → ℕ → ℕ
bg_block_bitmap_hi b p = field group_desc 12 b p

abbrev pub bg_inode_table_hi : Buffer → ℕ → ℕ
bg_inode_table_hi b p = field group_desc 14 b p

abbrev pub bg_free_blocks_count_hi : Buffer → ℕ → ℕ
bg_free_blocks_count_hi b p = field group_desc 15 b p

abbrev pub inode : Layout
inode =
    2 ∷ 2 ∷ 4 ∷ 4 ∷ 4 ∷ 4 ∷ 4 ∷ 2 ∷ 2 ∷ 4 ∷ 4 ∷ 4 ∷ 60 ∷ 4 ∷ 4 ∷ 4 ∷ 4 ∷ 2 ∷ 2 ∷ 2 ∷ 2 ∷ 2 ∷ 2 ∷ []

abbrev pub i_mode : Buffer → ℕ
i_mode b = field inode 0 b 0

abbrev pub i_uid : Buffer → ℕ
i_uid b = field inode 1 b 0

abbrev pub i_size_lo : Buffer → ℕ
i_size_lo b = field inode 2 b 0

abbrev pub i_atime : Buffer → ℕ
i_atime b = field inode 3 b 0

abbrev pub i_ctime : Buffer → ℕ
i_ctime b = field inode 4 b 0

abbrev pub i_mtime : Buffer → ℕ
i_mtime b = field inode 5 b 0

abbrev pub i_gid : Buffer → ℕ
i_gid b = field inode 7 b 0

abbrev pub i_links_count : Buffer → ℕ
i_links_count b = field inode 8 b 0

abbrev pub i_blocks_lo : Buffer → ℕ
i_blocks_lo b = field inode 9 b 0

abbrev pub i_flags : Buffer → ℕ
i_flags b = field inode 10 b 0

abbrev pub i_size_high : Buffer → ℕ
i_size_high b = field inode 15 b 0

abbrev pub l_i_blocks_high : Buffer → ℕ
l_i_blocks_high b = field inode 17 b 0

abbrev pub l_i_uid_high : Buffer → ℕ
l_i_uid_high b = field inode 19 b 0

abbrev pub l_i_gid_high : Buffer → ℕ
l_i_gid_high b = field inode 20 b 0

abbrev pub extent_header : Layout
extent_header = 2 ∷ 2 ∷ 2 ∷ 2 ∷ 4 ∷ []

abbrev pub eh_magic : Buffer → ℕ → ℕ
eh_magic b p = field extent_header 0 b p

abbrev pub eh_entries : Buffer → ℕ → ℕ
eh_entries b p = field extent_header 1 b p

abbrev pub eh_depth : Buffer → ℕ → ℕ
eh_depth b p = field extent_header 3 b p

abbrev pub extent_idx : Layout
extent_idx = 4 ∷ 4 ∷ 2 ∷ 2 ∷ []

abbrev pub ei_block : Buffer → ℕ → ℕ
ei_block b p = field extent_idx 0 b p

abbrev pub ei_leaf_lo : Buffer → ℕ → ℕ
ei_leaf_lo b p = field extent_idx 1 b p

abbrev pub ei_leaf_hi : Buffer → ℕ → ℕ
ei_leaf_hi b p = field extent_idx 2 b p

abbrev pub extent : Layout
extent = 4 ∷ 2 ∷ 2 ∷ 4 ∷ []

abbrev pub ee_block : Buffer → ℕ → ℕ
ee_block b p = field extent 0 b p

abbrev pub ee_len : Buffer → ℕ → ℕ
ee_len b p = field extent 1 b p

abbrev pub ee_start_hi : Buffer → ℕ → ℕ
ee_start_hi b p = field extent 2 b p

abbrev pub ee_start_lo : Buffer → ℕ → ℕ
ee_start_lo b p = field extent 3 b p

abbrev pub dir_entry : Layout
dir_entry = 4 ∷ 2 ∷ 1 ∷ 1 ∷ []

abbrev pub entry_inode : Buffer → ℕ → ℕ
entry_inode b p = field dir_entry 0 b p

abbrev pub rec_len : Buffer → ℕ → ℕ
rec_len b p = field dir_entry 1 b p

abbrev pub name_len : Buffer → ℕ → ℕ
name_len b p = field dir_entry 2 b p

abbrev pub file_type : Buffer → ℕ → ℕ
file_type b p = field dir_entry 3 b p
