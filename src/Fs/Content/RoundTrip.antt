-- ===== src/Fs/Content/RoundTrip.antt =====
-- fs/write.cpp and fs/read.cpp: what is written to an empty file is read back.
use arabos.Prelude.{
  ℕ, ◌+◌, ◌-◌, ◌^◌, ◌≤◌, ◌<◌, ◌≡◌, refl, sym, ap, ◌∙◌, ◌≢◌, true, false, some, List, [], ◌∷◌, ◌++◌,
  arith, leb, le→leb, le→ltb_false, ne→==_false, length, take, length-append, length-take,
  take-prefix,
}
use arabos.Prelude.Int.{pos}
use arabos.Stl.StaticVector.{push_back}
use arabos.Fs.Types.{
  Views, inode_body, file_body, data_body, File, Inode, Disk, Block, convert, convert_to_write,
  sector, with_inode, is_free, data_of, Reply, returns, incr, decr,
}
use arabos.Fs.Lookup.{inode_at, file_at, add_all, hdd_search}
use arabos.Fs.Lookup.Free.{free_from}
use arabos.Fs.Lookup.First.{one_free}
use arabos.Fs.Types.{convert-write_self, convert-write_other, used-free}
use arabos.Fs.Content.{
  chars_of, copy_n, data_at, gather, write_blocks, finish_write, no_handle, sfs_read, sfs_write,
}
use mathlib.Core.List.{foldl, append_assoc, append-nil}

foldl-push_back :
    (n : ℕ) (acc xs : List ℕ) → length acc + length xs ≤ n → foldl (push_back n) acc xs ≡ acc ++ xs
unfolding push_back
foldl-push_back n acc [] h = sym (append-nil acc)
foldl-push_back n acc (x ∷ xs) h =
    let room : leb (length acc + 1) n ≡ true = le→leb (length acc + 1) n (omega arith) in
    rw room (
      foldl-push_back n (acc ++ x ∷ []) xs (omega (arith, length-append acc (x ∷ [])))
      ∙ append_assoc acc (x ∷ []) xs)

copy_n_lem :
    (bytes : List ℕ) (n : ℕ) → n ≤ length bytes → n ≤ 496 → copy_n bytes n ≡ some (take n bytes)
unfolding copy_n
copy_n_lem bytes n h k =
    rw (le→leb n (length bytes) h)
      (ap some (foldl-push_back 496 [] (take n bytes) (omega (arith, length-take n bytes))))

module _ (w : Views) where
  -- An empty file in block `n`: its own block and its inode's are in use, and they are two blocks.
  pub record IsEmptyFile (disk : Disk) (n : ℕ) : Type 0 where
    pub file : File
    pub inode : Inode
    pub a_handle : n < 2 ^ 32 - 1
    pub file_block : (convert disk n).body ≡ file_body file
    pub inode_block : (convert disk file.inode).body ≡ inode_body inode
    pub file_used : is_free (convert disk n).tag ≡ false
    pub inode_used : is_free (convert disk file.inode).tag ≡ false
    pub apart : sector n ≢ sector file.inode
    pub empty : inode.index_file ≡ []

  -- What `write` promises, with what a later `read` of as many bytes answers.
  pub record Written (disk : Disk) (n : ℕ) (buf : List ℕ) (size : ℕ) : Type 0 where
    pub reply : Reply
    pub after_read : Disk
    pub returned : sfs_write w disk buf size n ≡ some reply
    pub count : reply.code ≡ pos size
    pub read_back : sfs_read w reply.disk size 0 n ≡ some (pos size, take size buf, after_read)

  write_empty :
      (disk : Disk) (n : ℕ) (buf : List ℕ) (size : ℕ) (written : Disk)
      → n ≢ no_handle
      → (inode_at w disk (file_at w disk n).inode).index_file ≡ []
      → write_blocks w disk (chars_of buf) size 0 (hdd_search disk size) ≡ some written
      → sfs_write w disk buf size n
        ≡ some (
            finish_write w
              (add_all w written (file_at w disk n) (hdd_search disk size))
              (convert disk n)
              n
              (file_at w disk n).inode
              size)
  unfolding sfs_write
  write_empty disk n buf size written a_handle none_listed blocks =
      rw (ne→==_false n no_handle a_handle, none_listed, blocks) refl

  -- The inode is written twice, with one reader more and with one less.
  abbrev after_reading : Disk → ℕ → Inode → Disk
  after_reading disk sec it =
      convert_to_write
        (convert_to_write disk
          (with_inode (convert disk sec) (record it { readcount = incr it.readcount })) sec)
        (with_inode (convert disk sec) (record it { readcount = decr (incr it.readcount) })) sec

  read_one :
      (disk : Disk) (n a size : ℕ) (bytes : List ℕ) (x : File) (it : Inode)
      → n ≢ no_handle
      → (convert disk n).body ≡ file_body x
      → (convert disk x.inode).body ≡ inode_body it
      → it.index_file ≡ a ∷ []
      → (convert disk a).body ≡ data_body bytes
      → length bytes ≡ size
      → 0 < size
      → sfs_read w disk size 0 n ≡ some (pos size, bytes, after_reading disk x.inode it)
  unfolding sfs_read gather data_at
  read_one disk n a size bytes x it a_handle file_block inode_block files content len some_bytes =
      rw
        (
          ne→==_false n no_handle a_handle,
          file_block,
          inode_block,
          files,
          content,
          append-nil bytes,
          len,
          le→ltb_false size 0 (omega arith),
          le→ltb_false size (0 + size) (omega arith),
          ne→==_false size 0 (λ e. omega arith),
        )
        refl

  module _ (disk : Disk) (n a : ℕ) (x : IsEmptyFile disk n) (buf : List ℕ) (size : ℕ)
      (bound : (0 < size) × (size ≤ length buf) × (length buf ≤ 128))
      (a_free : is_free (convert disk a).tag ≡ true) where
    abbrev sec : ℕ
    sec = x.file.inode

    abbrev stored : Disk
    stored = convert_to_write disk (data_of (take size buf)) a

    abbrev listed : Block
    listed = with_inode (convert disk sec) (record x.inode { index_file = a ∷ [] })

    abbrev closed : Block
    closed =
        with_inode (convert disk sec) (record x.inode {
          index_file = a ∷ [];
          size = size;
          writecount = decr x.inode.writecount;
        })

    abbrev final : Disk
    final =
        convert_to_write (convert_to_write (convert_to_write stored listed sec) closed sec)
          (convert disk n) n

    chars : List ℕ
    chars = buf ++ 0 ∷ []

    write_one : write_blocks w disk (chars_of buf) size 0 (a ∷ []) ≡ some stored
    unfolding write_blocks chars
    write_one =
        let whole : chars_of buf ≡ chars = rw (le→leb (length buf) 128 bound.2) refl in
        let copied : copy_n chars size ≡ some (take size buf) =
          copy_n_lem chars size (omega (arith, bound, length-append buf (0 ∷ [])))
            (omega (arith, bound))
          ∙ ap some (take-prefix size buf (0 ∷ []) bound.1) in
        rw (whole, copied) refl

    inode_kept : convert stored sec ≡ convert disk sec
    inode_kept =
        convert-write_other disk (data_of (take size buf)) a sec
          (λ e. used-free disk sec a x.inode_used a_free e)

    add_one : add_all w stored x.file (a ∷ []) ≡ convert_to_write stored listed sec
    unfolding add_all push_back
    add_one = rw (inode_kept, x.inode_block, x.empty) refl

    finish_one :
        finish_write w (convert_to_write stored listed sec) (convert disk n) n sec size
        ≡ returns (pos size) final
    unfolding finish_write
    finish_one = rw (convert-write_self stored listed sec) refl

    write_returns :
        hdd_search disk size ≡ a ∷ []
        → sfs_write w disk buf size n ≡ some (returns (pos size) final)
    write_returns e =
        let file : file_at w disk n ≡ x.file = rw x.file_block refl in
        let none_listed : (inode_at w disk sec).index_file ≡ [] =
          rw (x.inode_block, x.empty) refl in
        write_empty disk n buf size stored (λ k. omega (arith, x.a_handle)) (rw file none_listed)
          (rw e write_one)
        ∙ ap some (rw (file, e, add_one, finish_one) refl)

    final_inode : convert final sec ≡ closed
    final_inode =
        convert-write_other (convert_to_write (convert_to_write stored listed sec) closed sec)
          (convert disk n) n sec (λ e. x.apart (sym e))
        ∙ convert-write_self (convert_to_write stored listed sec) closed sec

    final_data : convert final a ≡ data_of (take size buf)
    final_data =
        let not_inode =
          λ (e : sector a ≡ sector sec). used-free disk sec a x.inode_used a_free (sym e) in
        convert-write_other (convert_to_write (convert_to_write stored listed sec) closed sec)
          (convert disk n) n a (λ e. used-free disk n a x.file_used a_free (sym e))
        ∙ convert-write_other (convert_to_write stored listed sec) closed sec a not_inode
        ∙ convert-write_other stored listed sec a not_inode
        ∙ convert-write_self disk (data_of (take size buf)) a

    read_returns :
        sfs_read w final size 0 n
        ≡ some (
          pos size,
          take size buf,
          after_reading final sec (record x.inode {
            index_file = a ∷ [];
            size = size;
            writecount = decr x.inode.writecount;
          }),
        )
    read_returns =
        read_one final n a size (take size buf) x.file
          (record x.inode {
            index_file = a ∷ [];
            size = size;
            writecount = decr x.inode.writecount;
          })
          (λ k. omega (arith, x.a_handle))
          (ap (λ (b : Block). b.body)
              (convert-write_self (convert_to_write (convert_to_write stored listed sec) closed sec)
                (convert disk n) n)
            ∙ x.file_block)
          (ap (λ (b : Block). b.body) final_inode) refl (ap (λ (b : Block). b.body) final_data)
          (omega (arith, bound, length-take size buf)) bound.0

  -- With a free block among the first ten, `write` to an empty file of a positive number of bytes that
  -- the text has, and at most 128, returns that number, and a `read` of as many bytes
  -- then returns the number and the first bytes of the text.
  pub sfs_read-sfs_write :
      (disk : Disk) (n : ℕ) (buf : List ℕ) (size : ℕ)
      → IsEmptyFile disk n
      → 0 < size
      → size ≤ length buf
      → length buf ≤ 128
      → 1 ≤ length (free_from disk 10 0)
      → Written disk n buf size
  sfs_read-sfs_write disk n buf size x h k l room =
      let free = one_free disk size h (omega arith) room in
      let a = free.a in
      let a_free = free.a_free in
      record {
        reply = returns (pos size) (final disk n a x buf size (h, k, l) a_free);
        after_read =
            after_reading (final disk n a x buf size (h, k, l) a_free) x.file.inode
              (record x.inode {
                index_file = a ∷ [];
                size = size;
                writecount = decr x.inode.writecount;
              });
        returned = write_returns disk n a x buf size (h, k, l) a_free free.first;
        count = refl;
        read_back = read_returns disk n a x buf size (h, k, l) a_free;
      }
