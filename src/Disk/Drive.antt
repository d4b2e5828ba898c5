-- ===== src/Disk/Drive.antt =====
-- init/ata.cpp: what a drive that follows the ATA manual makes of `read` and `write`.
use arabos.Prelude.{
  false, not, ◌&&◌, take, take-all, Bool-cases, inl, inr, ap₂, ℕ, ◌+◌, ◌*◌, ◌/◌, ◌%◌, ◌^◌, ◌<◌,
  bit_or, ◌≡◌, refl, sym, ap, ◌∙◌, ◌≢◌, Bool, true, List, [], ◌∷◌, ◌++◌, arith, ◌==◌, if◌then◌else◌,
  ==_iff, ne→==_false, length, get_or-append, length-append,
}
use mathlib.Core.Path.{subst}
use mathlib.Core.List.{append_assoc}
use arabos.Prelude.Below.{holds_to, holds_to_lem}
use arabos.Disk.{
  Io, outportb, outportw, insw, poll, cli, sti, reg_data, reg_status, reg_sector_count, reg_lba_lo,
  reg_lba_mid, reg_lba_hi, reg_device, reg_command, cmd_read_sectors, cmd_write_sectors,
  cmd_cache_flush, wait_not_busy, wait_ready, wait_for_data, select_sector, read, write_words,
  write,
}
use arabos.Fs.Types.{sector}

-- The master drive: its registers, what the driver has seen of its status since the last command, the
-- words that came for a sector that is being written, its sectors, and the words that it gave to `insw`.
-- A `prompt` drive asks for the data of a write as soon as the command has come.
pub record Drive : Type 0 where
  pub device : ℕ
  pub count : ℕ
  pub lo : ℕ
  pub mid : ℕ
  pub hi : ℕ
  pub command : ℕ
  pub idle : Bool
  pub ready : Bool
  pub data_request : Bool
  pub prompt : Bool
  pub buffer : List ℕ
  pub sectors : ℕ → List ℕ
  pub given : List ℕ

-- The sector that the registers name.
abbrev pub addressed : Drive → ℕ
addressed d = d.lo + 2 ^ 8 * d.mid + 2 ^ 16 * d.hi + 2 ^ 24 * (d.device % 16)

abbrev pub put_sector : ℕ → List ℕ → (ℕ → List ℕ) → ℕ → List ℕ
put_sector at words sectors n = if n == at then words else sectors n

-- A byte in a register. A command makes the drive busy.
abbrev pub register : Drive → ℕ → ℕ → Drive
register d port b =
    if port == reg_device
    then record d { device = b }
    else if port == reg_sector_count
    then record d { count = b }
    else if port == reg_lba_lo
    then record d { lo = b }
    else if port == reg_lba_mid
    then record d { mid = b }
    else if port == reg_lba_hi
    then record d { hi = b }
    else if port == reg_command
    then record d {
      command = b;
      idle = false;
      ready = false;
      data_request = b == cmd_write_sectors && d.prompt;
      buffer = [];
    }
    else d

-- The drive moves words for a command when it asks for data, one sector is wanted, and the LBA bit is set.
abbrev pub moves_words : Drive → ℕ → Bool
moves_words d c = d.command == c && d.data_request && d.count == 1 && d.device / 64 % 2 == 1

-- A word of a sector: with the last one, the sector is written.
abbrev pub take_word : Drive → ℕ → Drive
take_word d w =
    if length d.buffer + 1 == 256
    then record d {
      buffer = d.buffer ++ w ∷ [];
      data_request = false;
      sectors = put_sector (addressed d) (d.buffer ++ w ∷ []) d.sectors;
    }
    else record d { buffer = d.buffer ++ w ∷ [] }

-- A poll of a flag ends when the drive shows it.
abbrev pub seen : Drive → ℕ → Bool → Drive
seen d flag value =
    if flag == 0x80 && not value
    then record d { idle = true }
    else if flag == 0x40 && value
    then record d { ready = true }
    else if flag == 0x08 && value
    then record d { data_request = true }
    else d

-- A drive that is not seen to be idle and ready ignores its registers.
abbrev pub react : Drive → Io → Drive
react d (outportb port b) = if d.idle && d.ready then register d port b else d
react d (outportw port w) =
    if port == reg_data && moves_words d cmd_write_sectors then take_word d w else d
react d (insw port n) =
    if port == reg_data && moves_words d cmd_read_sectors
    then record d { given = take n (d.sectors (addressed d)); data_request = false }
    else d
react d (poll port flag value) = if port == reg_status then seen d flag value else d
react d cli = d
react d sti = d

abbrev pub run : Drive → List Io → Drive
run d [] = d
run d (io ∷ rest) = run (react d io) rest

run-append : (d : Drive) (xs ys : List Io) → run d (xs ++ ys) ≡ run (run d xs) ys
run-append d [] ys = refl
run-append d (x ∷ xs) ys = run-append (react d x) xs ys

-- The drive after the two polls that both functions begin with.
abbrev awake : Drive → Drive
awake d = record d { idle = true; ready = true }

-- The registers after `select_sector`.
selected : Drive → ℕ → Drive
selected d lba = record d {
  device = bit_or 0xE0 (lba / 2 ^ 24 % 16);
  count = 1;
  lo = lba % 256;
  mid = lba / 2 ^ 8 % 256;
  hi = lba / 2 ^ 16 % 256;
}

select_lem : (d : Drive) (lba : ℕ) → run (awake d) (select_sector lba) ≡ selected (awake d) lba
unfolding select_sector selected
select_lem d lba = refl

low_nibble : ℕ → Bool
low_nibble x = bit_or 0xE0 x % 16 == x

low_nibble_table : holds_to low_nibble 15 ≡ true
unfolding holds_to low_nibble
low_nibble_table = refl

low_nibble_lem : (x : ℕ) → x < 16 → bit_or 0xE0 x % 16 ≡ x
unfolding low_nibble
low_nibble_lem x h = ground (arith, holds_to_lem low_nibble 15 x (omega arith) low_nibble_table)

lba_bit : ℕ → Bool
lba_bit x = bit_or 0xE0 x / 64 % 2 == 1

lba_bit_table : holds_to lba_bit 15 ≡ true
unfolding holds_to lba_bit
lba_bit_table = refl

lba_bit_lem : (x : ℕ) → x < 16 → (bit_or 0xE0 x / 64 % 2 == 1) ≡ true
unfolding lba_bit
lba_bit_lem x h = holds_to_lem lba_bit 15 x (omega arith) lba_bit_table

addressed_lem : (d : Drive) (lba : ℕ) → addressed (selected d lba) ≡ sector lba
unfolding selected
addressed_lem d lba = omega (arith, low_nibble_lem (lba / 2 ^ 24 % 16) (omega arith))

abbrev outs : List ℕ → List Io
outs [] = []
outs (w ∷ ws) = outportw reg_data w ∷ outs ws

write_words_lem :
    (pre post : List ℕ) → write_words (pre ++ post) (length pre) (length post) ≡ outs post
unfolding write_words
write_words_lem pre [] = refl
write_words_lem pre (x ∷ xs) =
    let ih = write_words_lem (pre ++ x ∷ []) xs in
    let at : length (pre ++ x ∷ []) ≡ length pre + 1 = length-append pre (x ∷ []) in
    rw (get_or-append pre x xs 0) (
      ap (λ l. outportw reg_data x ∷ l)
        (subst (λ i. write_words (pre ++ x ∷ xs) i (length xs) ≡ outs xs) at
          (subst (λ l. write_words l (length (pre ++ x ∷ [])) (length xs) ≡ outs xs)
            (append_assoc pre (x ∷ []) xs) ih)))

-- The drive after the words of a sector.
filled : Drive → List ℕ → Drive
filled d words = record d {
  buffer = words;
  data_request = false;
  sectors = put_sector (addressed d) words d.sectors;
}

word_more :
    (d : Drive) (w : ℕ)
    → moves_words d cmd_write_sectors ≡ true
    → length d.buffer + 1 ≢ 256
    → react d (outportw reg_data w) ≡ record d { buffer = d.buffer ++ w ∷ [] }
word_more d w c ne = rw (c, ne→==_false (length d.buffer + 1) 256 ne) refl

word_last :
    (d : Drive) (w : ℕ)
    → moves_words d cmd_write_sectors ≡ true
    → length d.buffer + 1 ≡ 256
    → react d (outportw reg_data w) ≡ filled d (d.buffer ++ w ∷ [])
unfolding filled
word_last d w c e = rw (c, (==_iff (length d.buffer + 1) 256).1 e) refl

outs_lem :
    (d : Drive) (ws : List ℕ)
    → moves_words d cmd_write_sectors ≡ true
    → length d.buffer + length ws ≡ 256
    → 0 < length ws
    → run d (outs ws) ≡ filled d (d.buffer ++ ws)
unfolding filled
outs_lem d [] c e h = absurd (omega arith)
outs_lem d (w ∷ []) c e h = word_last d w c e
outs_lem d (w ∷ v ∷ ws) c e h =
    let d' = record d { buffer = d.buffer ++ w ∷ [] } in
    let grown : length (d.buffer ++ w ∷ []) ≡ length d.buffer + 1 =
      length-append d.buffer (w ∷ []) in
    ap (λ x. run x (outs (v ∷ ws))) (word_more d w c (λ x. omega arith))
    ∙ outs_lem d' (v ∷ ws) c (omega (arith, grown)) (omega arith)
    ∙ ap (filled d) (append_assoc d.buffer (w ∷ []) (v ∷ ws))

-- The drive when a command has come.
commanded : Drive → ℕ → ℕ → Drive
commanded d lba c = record (selected (awake d) lba) {
  command = c;
  idle = false;
  ready = false;
  data_request = c == cmd_write_sectors && d.prompt;
  buffer = [];
}

command_lem :
    (d : Drive) (lba c : ℕ) (rest : List Io)
    → run (awake d) (select_sector lba ++ outportb reg_command c ∷ rest)
      ≡ run (commanded d lba c) rest
unfolding commanded selected
command_lem d lba c rest =
    run-append (awake d) (select_sector lba) (outportb reg_command c ∷ rest)
    ∙ ap (λ x. run x (outportb reg_command c ∷ rest)) (select_lem d lba)

-- The drive after `write`: it is busy with the sector when CMD_CACHE_FLUSH comes.
after_write : Drive → List ℕ → ℕ → Drive
after_write d words n = filled (commanded d n cmd_write_sectors) words

commanded-moves :
    (d : Drive) (n : ℕ)
    → d.prompt ≡ true
    → moves_words (commanded d n cmd_write_sectors) cmd_write_sectors ≡ true
unfolding commanded selected
commanded-moves d n p = rw (p, lba_bit_lem (n / 2 ^ 24 % 16) (omega arith)) refl

no_words : (d : Drive) (n : ℕ) {k : ℕ} → length (commanded d n cmd_write_sectors).buffer + k ≡ k
unfolding commanded
no_words d n {k} = omega arith

flush_lem :
    (d : Drive) (words : List ℕ) (n : ℕ)
    → run (after_write d words n) (outportb reg_command cmd_cache_flush ∷ sti ∷ [])
      ≡ after_write d words n
unfolding after_write commanded filled
flush_lem d words n = refl

filling_lem :
    (d : Drive) (words : List ℕ) (n : ℕ)
    → d.prompt ≡ true
    → length words ≡ 256
    → run (commanded d n cmd_write_sectors) (outs words) ≡ after_write d words n
unfolding after_write commanded
filling_lem d words n p e =
    outs_lem (commanded d n cmd_write_sectors) words (commanded-moves d n p) (no_words d n ∙ e)
      (omega arith)

write_lem :
    (d : Drive) (words : List ℕ) (n : ℕ)
    → d.prompt ≡ true
    → length words ≡ 256
    → run d (write words n) ≡ after_write d words n
unfolding write wait_not_busy wait_ready
write_lem d words n p e =
    let ready = commanded d n cmd_write_sectors in
    let flush = outportb reg_command cmd_cache_flush ∷ sti ∷ [] in
    let loop : write_words words 0 256 ≡ outs words =
      subst (λ l. write_words words 0 l ≡ outs words) e (write_words_lem [] words) in
    let filling : run ready (outs words) ≡ after_write d words n = filling_lem d words n p e in
    command_lem d n cmd_write_sectors (write_words words 0 256 ++ flush)
    ∙ run-append ready (write_words words 0 256) flush
    ∙ ap (λ l. run (run ready l) flush) loop
    ∙ ap (λ x. run x flush) filling
    ∙ flush_lem d words n

sectors_lem :
    (d : Drive) (words : List ℕ) (n : ℕ)
    → (after_write d words n).sectors ≡ put_sector (sector n) words d.sectors
unfolding after_write filled commanded selected
sectors_lem d words n = ap (λ at. put_sector at words d.sectors) (addressed_lem d n)

-- The drive when the words of a read can be fetched.
read_ready : Drive → ℕ → Drive
read_ready d n = record (commanded d n cmd_read_sectors) { data_request = true }

read_ready-moves : (d : Drive) (n : ℕ) → moves_words (read_ready d n) cmd_read_sectors ≡ true
unfolding read_ready commanded selected
read_ready-moves d n = rw (lba_bit_lem (n / 2 ^ 24 % 16) (omega arith)) refl

ready_address : (d : Drive) (n : ℕ) → addressed (read_ready d n) ≡ sector n
unfolding read_ready commanded
ready_address d n = addressed_lem (awake d) n

kept_sectors : (d : Drive) (n : ℕ) → (read_ready d n).sectors ≡ d.sectors
unfolding read_ready commanded selected
kept_sectors d n = refl

fetch_lem :
    (d : Drive) (n : ℕ)
    → (run (read_ready d n) (insw reg_data 256 ∷ sti ∷ [])).given ≡ take 256 (d.sectors (sector n))
fetch_lem d n =
    rw (read_ready-moves d n) (ap₂ (λ f at. take 256 (f at)) (kept_sectors d n) (ready_address d n))

read_lem : (d : Drive) (n : ℕ) → (run d (read n)).given ≡ take 256 (d.sectors (sector n))
unfolding read wait_not_busy wait_ready wait_for_data read_ready
read_lem d n =
    ap (λ x. x.given)
      (command_lem d n cmd_read_sectors (wait_for_data ∷ insw reg_data 256 ∷ sti ∷ []))
    ∙ fetch_lem d n

one_sector :
    (d : Drive) (words : List ℕ) (n m : ℕ)
    → length words ≡ 256
    → take 256 (put_sector (sector n) words d.sectors (sector m))
      ≡ (if sector m == sector n then words else (run d (read m)).given)
one_sector d words n m e = elim (Bool-cases (sector m == sector n)) [
  | inl same ↦ rw same (take-all 256 words (omega (arith, e)))
  | inr other ↦ rw other (sym (read_lem d m))
]

-- On a drive that follows the ATA manual and asks for the data of a write as soon as the command has come,
-- `read` after `write` of 256 words gives these words for the sector that was written, which the low 28
-- bits of the number name, and for another sector what `read` gave before.
pub read-write :
    (d : Drive) (words : List ℕ) (n m : ℕ)
    → d.prompt ≡ true
    → length words ≡ 256
    → (run (run d (write words n)) (read m)).given
      ≡ (if sector m == sector n then words else (run d (read m)).given)
read-write d words n m p e =
    ap (λ x. (run x (read m)).given) (write_lem d words n p e)
    ∙ read_lem (after_write d words n) m
    ∙ ap (λ f. take 256 (f (sector m))) (sectors_lem d words n)
    ∙ one_sector d words n m e
