-- ===== src/Fs/Types.antt =====
-- include/file_t.h: the blocks of the disk. `int` members are 32-bit patterns. A `time_point` is an
-- empty class, so no time is kept.
use arabos.Prelude.{
  ℕ, ◌+◌, ◌-◌, ◌%◌, ◌^◌, ◌≡◌, sym, ◌≢◌, Bool, true, false, Option, none, some, List, [], arith,
  ◌==◌, if◌then◌else◌, ne→==_false,
}
use arabos.Prelude.Int.{ℤ}

pub data BlockType : Type 0 where
  free data_block inode_block file_block : BlockType

pub data FileType : Type 0 where
  f d : FileType

pub record Inode : Type 0 where
  pub index_file : List ℕ
  pub size : ℕ
  pub usecount : ℕ
  pub uid : ℕ
  pub gid : ℕ
  pub readcount : ℕ
  pub writecount : ℕ
  pub link : ℕ

pub record File : Type 0 where
  pub inode : ℕ
  pub type : FileType
  pub name : List ℕ
  pub mode : ℕ
  pub is_symlink : Bool

-- The union of a block: the member that was last written. `pad` is any other content of the bytes.
pub data Body : Type 0 where
  inode_body : Inode → Body
  data_body : List ℕ → Body
  file_body : File → Body
  pad_body : List ℕ → Body

pub record Block : Type 0 where
  pub tag : BlockType
  pub body : Body

-- The bytes of one member read as another are up to the compiler's layout, and a block that is not
-- initialised holds what the stack held.
pub record Views : Type 0 where
  pub inode_view : Body → Inode
  pub data_view : Body → List ℕ
  pub file_view : Body → File
  pub uninit : Body

-- `block.inode`, `block.data.data` and `block.file`.
abbrev pub as_inode : Views → Body → Inode
as_inode w (inode_body i) = i
as_inode w (data_body c) = w.inode_view (data_body c)
as_inode w (file_body x) = w.inode_view (file_body x)
as_inode w (pad_body p) = w.inode_view (pad_body p)

abbrev pub as_data : Views → Body → List ℕ
as_data w (data_body c) = c
as_data w (inode_body i) = w.data_view (inode_body i)
as_data w (file_body x) = w.data_view (file_body x)
as_data w (pad_body p) = w.data_view (pad_body p)

abbrev pub as_file : Views → Body → File
as_file w (file_body x) = x
as_file w (inode_body i) = w.file_view (inode_body i)
as_file w (data_body c) = w.file_view (data_body c)
as_file w (pad_body p) = w.file_view (pad_body p)

-- `inode_t()`
abbrev pub new_inode : Inode
new_inode = record {
  index_file = [];
  size = 0;
  usecount = 0;
  uid = 0;
  gid = 0;
  readcount = 0;
  writecount = 0;
  link = 1;
}

-- `change_type<T>(...)`: the block takes the tag of T, and a T is constructed in it.
abbrev pub file_of : File → Block
file_of x = record { tag = file_block; body = file_body x }

abbrev pub inode_of : Inode → Block
inode_of i = record { tag = inode_block; body = inode_body i }

abbrev pub data_of : List ℕ → Block
data_of c = record { tag = data_block; body = data_body c }

-- A block that was declared and tagged free.
abbrev pub free_of : Views → Block
free_of w = record { tag = free; body = w.uninit }

-- A block whose union member was assigned: the tag stays.
abbrev pub with_inode : Block → Inode → Block
with_inode b i = record b { body = inode_body i }

abbrev pub with_file : Block → File → Block
with_file b x = record b { body = file_body x }

abbrev pub with_data : Block → List ℕ → Block
with_data b c = record b { body = data_body c }

abbrev pub with_tag : Block → BlockType → Block
with_tag b t = record b { tag = t }

abbrev pub Disk : Type 0
Disk = ℕ → Block

-- The sector that a number addresses: the driver sends the low 28 bits.
abbrev pub sector : ℕ → ℕ
sector n = n % 2 ^ 28

-- `convert(block, sec)` and `convert_to_write(block, sec)`.
abbrev pub convert : Disk → ℕ → Block
convert disk sec = disk (sector sec)

abbrev pub convert_to_write : Disk → Block → ℕ → Disk
convert_to_write disk block sec = λ s. if sector sec == s then block else disk s

abbrev pub is_free : BlockType → Bool
is_free free = true
is_free data_block = false
is_free inode_block = false
is_free file_block = false

abbrev pub is_directory : FileType → Bool
is_directory d = true
is_directory f = false

abbrev pub eacces : ℕ
eacces = 1

abbrev pub eexist : ℕ
eexist = 2

abbrev pub enoent : ℕ
enoent = 3

abbrev pub enotdir : ℕ
enotdir = 4

abbrev pub block_size : ℕ
block_size = 512

-- `++` and `--` on an `int` member.
abbrev pub incr : ℕ → ℕ
incr n = (n + 1) % 2 ^ 32

abbrev pub decr : ℕ → ℕ
decr n = (n + 2 ^ 32 - 1) % 2 ^ 32

-- The global objects: the disk and the block `ROOT`, kept in memory.
pub record Fs : Type 0 where
  pub disk : Disk
  pub root : File

-- What an operation returns, the disk that it leaves, and the handle that it stores for its caller.
pub record Reply : Type 0 where
  pub code : ℤ
  pub disk : Disk
  pub handle : Option ℕ

abbrev pub returns : ℤ → Disk → Reply
returns code disk = record { code = code; disk = disk; handle = none }

-- `none` is a run that C++ leaves undefined: a function ends without a `return`, or reads or writes
-- past an array.
infixl 5 ◌>>=◌
abbrev pub ◌>>=◌ {ℓ κ} : {A : Type ℓ} {B : Type κ} → Option A → (A → Option B) → Option B
none >>= k = none
some a >>= k = k a

-- A block that is written is read back, and the other blocks are as they were.
pub convert-write_self :
    (disk : Disk) (b : Block) (n : ℕ) → convert (convert_to_write disk b n) n ≡ b
convert-write_self disk b n = ground arith

pub convert-write_other :
    (disk : Disk) (b : Block) (n m : ℕ)
    → sector m ≢ sector n
    → convert (convert_to_write disk b n) m ≡ convert disk m
convert-write_other disk b n m ne = rw (ne→==_false (sector n) (sector m) (λ e. ne (sym e)))

-- A block in use and a free block are two blocks.
pub used-free :
    (disk : Disk) (n m : ℕ)
    → is_free (convert disk n).tag ≡ false
    → is_free (convert disk m).tag ≡ true
    → sector n ≢ sector m
used-free disk n m used unused e =
    let free_m : is_free (disk (sector m)).tag ≡ true = unused in
    let used_n : is_free (disk (sector n)).tag ≡ false = used in cc
