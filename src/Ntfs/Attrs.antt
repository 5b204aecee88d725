-- ===== src/Ntfs/Attrs.antt =====
-- ntfs_fskit.c, lines 259 to 286 and 1075 to 1082: the attributes of the volume, and the calls of
-- libntfs-3g for those of files. Times and sizes are natural numbers; sizes are below 2 ^ 63.
pub mod Inspect
pub mod Change
pub mod SpecialData
mod Tests
use usbrw.Base.{
  ℕ, zero, suc, ◌+◌, ◌-◌, ◌*◌, ◌/◌, ◌%◌, ◌^◌, Bool, true, false, not, ◌&&◌, ◌||◌, Option, none,
  some, List, [], ◌∷◌, ltb, leb, ◌==◌, if◌then◌else◌, take, length, is_some,
}
use usbrw.Base.Int.{ℤ, pos, negsuc}
use usbrw.Bridge.{Statfs, einval, eperm, enoent, enametoolong, eopnotsupp}
use usbrw.Bridge.Mode
use usbrw.Ext.Engine.{Name}
use usbrw.Ext.Reply.{Reply, done, failed, hangs, Op, return, refuse, ◌>>=◌, ◌>>◌, unless}
use usbrw.Ntfs.Call.{Info, Inodes, succeed_or, ended, obtained, always, with_inode, needing, find}
use usbrw.Ntfs.Data.{Opening, opened, cannot}

-- What `fill_stat` reads in an open inode and its record.
pub record Node : Type 0 where
  pub mft_no : ℕ
  pub link_count : ℕ
  pub is_reparse : Bool
  pub is_directory : Bool
  pub is_system : Bool
  pub is_hidden : Bool
  pub data_size : ℕ
  pub allocated_size : ℕ
  pub last_access_time : ℕ
  pub last_mft_change_time : ℕ
  pub last_data_change_time : ℕ
  pub creation_time : ℕ

-- INTX_FILE: a special file in the format of Interix.
pub data Magic : Type 0 where
  symbolic_link block_device character_device other_magic : Magic

pub record Intx : Type 0 where
  pub magic : Magic
  pub target : Name

-- The unnamed data attribute, when it is opened.
pub record DataAttr : Type 0 where
  pub data_size : ℕ
  pub initialized_size : ℕ
  pub is_compressed : Bool

-- The volume, as statfs sees it; the counts of what is free are signed.
pub record Volume : Type 0 where
  pub cluster_size : ℕ
  pub nr_clusters : ℕ
  pub free_clusters : ℤ
  pub free_mft_records : ℤ
  -- the allocated size of the bitmap of MFT records, if there is one
  pub mftbmp_allocated : Option ℕ
  pub vol_name : Option (List ℕ)

pub record Engine (S : Type 0) : Type 0 where
  pub inodes : Inodes S
  -- sizeof(INTX_FILE_TYPES)
  pub intx_header : ℕ
  pub node : ℕ → S → Node
  pub known_size : ℕ → S → Bool
  -- data and allocated size of the index allocation
  pub index_sizes : ℕ → S → Option (ℕ × ℕ) × S
  pub cache_sizes : ℕ → ℕ × ℕ → S → S
  pub make_symlink : ℕ → S → Opening Name × S
  pub open_data : ℕ → S → Opening DataAttr × S
  pub close_data : ℕ → S → S
  pub malloc_errno : ℕ → Option ℕ
  -- reads from the start of the data: a count, errno and the buffer
  pub pread_intx : ℕ → (size : ℕ) → S → (ℤ × ℕ × Intx) × S
  pub ucstombs : Name → Opening Name
  -- ntfs2timespec and timespec2ntfs, for whole seconds
  pub seconds : ℕ → ℕ
  pub ntfs_time : ℕ → ℕ
  pub truncate : ℕ → ℕ → S → Option ℕ × S
  -- writes a zero byte
  pub put_zero : ℕ → (off : ℕ) → S → (ℤ × ℕ) × S
  pub set_archive : ℕ → S → S
  pub update_mctime : ℕ → S → S
  pub update_ctime : ℕ → S → S
  pub set_data_change_time : ℕ → ℕ → S → S
  pub set_access_time : ℕ → ℕ → S → S
  pub set_creation_time : ℕ → ℕ → S → S
  -- ni->flags, and the call that replaces them
  pub flags : ℕ → S → ℕ
  pub set_ntfs_attrib : ℕ → ℕ → S → Option ℕ × S
  pub free_space_known : S → Bool
  pub get_free_space : S → S
  pub volume : S → Volume
  pub device_sync : S → Reply (Unit {0}) × S

-- UF_HIDDEN
abbrev pub uf_hidden : ℕ
uf_hidden = 0x8000

abbrev pub path_max : ℕ
path_max = 1024

-- Whether a bit, a power of two, is set.
abbrev pub has : (bit : ℕ) → ℕ → Bool
has bit n = n / bit % 2 == 1

-- NFSK_DOS_HIDDEN set or cleared.
pub with_hidden : Bool → ℕ → ℕ
with_hidden true a = if has 2 a then a else a + 2
with_hidden false a = if has 2 a then a - 2 else a

abbrev pub positive : ℤ → ℕ
positive (pos n) = n
positive (negsuc n) = 0

abbrev pub or_zero : Option ℕ → ℕ
or_zero none = 0
or_zero (some n) = n

-- strlcpy into 256 bytes
abbrev pub volume_name : Option (List ℕ) → List ℕ
volume_name none = []
volume_name (some name) = take 255 name

pub statfs_of : Volume → Statfs
statfs_of vol =
    let total = or_zero vol.mftbmp_allocated * 8 % 2 ^ 64 in
    record {
      total_bytes = vol.nr_clusters * vol.cluster_size % 2 ^ 64;
      free_bytes = positive vol.free_clusters * vol.cluster_size % 2 ^ 64;
      bsize = vol.cluster_size % 2 ^ 32;
      total_files = total;
      free_files =
          if ltb 0 (positive vol.free_mft_records) then positive vol.free_mft_records else total;
      name = volume_name vol.vol_name;
    }

-- if (ntfs_attr_pread(...) != na->data_size) res = -errno;
-- With errno 0 the operation ends as a success, with nothing read.
abbrev pub intx_read : {S : Type 0} → (size : ℕ) → (ℤ × ℕ × Intx) × S → Reply (Option Intx) × S
intx_read size ((pos k, errno, intx), s) =
    if k == size then (done (some intx), s) else ended none errno s
intx_read size ((negsuc n, errno, intx), s) = ended none errno s

module _ {S : Type 0} (e : Engine S) where
  abbrev i : Inodes S
  i = e.inodes

  abbrev pub counted : Bool → S → S
  counted true s = s
  counted false s = e.get_free_space s

  pub fsstat : (usable : Bool) → Op S Statfs
  unfolding statfs_of
  fsstat usable =
      needing usable
        λ s. let s = counted (e.free_space_known s) s in (done (statfs_of (e.volume s)), s)

  -- The file system synchronises the whole device.
  pub fsync : (usable : Bool) → Op S (Unit {0})
  fsync usable = needing usable λ s. e.device_sync s
