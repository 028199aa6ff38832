-- ===== src/DeltaIndex/Build.antt =====
-- The construction of an index: `init`, and the scanner of a base's blocks.
use go_git.Prelude.{
  ℕ, zero, suc, ◌+◌, ◌-◌, ◌*◌, ◌/◌, ◌%◌, ◌^◌, bit_and, List, [], ◌∷◌, not, ◌&&◌, ltb, leb, ◌==◌,
  if◌then◌else◌, length, Option, none, some,
}
use go_git.Prelude.Partial.{◌>>=◌, get_elem?}
use go_git.Prelude.Text.{Bytes}
use go_git.DeltaIndex.{set_elem, zeros, blksz, max_chain_length, hash_block, DeltaIndex}
use go_git.DeltaIndex.HashTable.{len8tab}

pub record DeltaIndexScanner : Type 0 where
  pub table : List ℕ
  pub entries : List ℕ
  pub next : List ℕ
  pub mask : ℕ
  pub count : ℕ

-- `leadingZeros`, of a uint32.
unfoldable pub leading_zeros : ℕ → Option ℕ
leading_zeros x =
    let x1 : ℕ = if leb (2 ^ 16) x then x / 2 ^ 16 else x in
    let n1 : ℕ = if leb (2 ^ 16) x then 16 else 0 in
    let x2 : ℕ = if leb (2 ^ 8) x1 then x1 / 2 ^ 8 else x1 in
    let n2 : ℕ = if leb (2 ^ 8) x1 then n1 + 8 else n1 in
    do l ← get_elem? len8tab x2; some (32 - (n2 + l))

-- `tableSize`, where a shift by -1 leaves nothing.
unfoldable pub table_size : ℕ → Option ℕ
table_size worst_case_block_cnt = do
  zeros_before ← leading_zeros (worst_case_block_cnt % 2 ^ 32)
  let shift = 32 - zeros_before in
      let sz = if shift == 0 then 0 else 2 ^ (shift - 1) in
      some (if ltb sz worst_case_block_cnt then sz * 2 else sz)

-- What `scan` does with one block, by the entry at the head of its chain.
unfoldable pub scan_block : DeltaIndexScanner → ℕ → ℕ → ℕ → ℕ → ℕ → Option DeltaIndexScanner
scan_block s last_hash key ptr t_idx head =
    if not (head == 0) && last_hash == key
    then (do entries ← set_elem s.entries head ptr; some (record s { entries = entries }))
    else (do
      entries ← set_elem s.entries (suc s.count) ptr
      next ← set_elem s.next (suc s.count) head
      table ← set_elem s.table t_idx (suc s.count)
      some (record s { table = table; entries = entries; next = next; count = suc s.count }))

-- `scan`, from the block at an offset down to the first.
unfoldable pub scan_from : ℕ → Bytes → DeltaIndexScanner → ℕ → ℕ → Option DeltaIndexScanner
scan_from zero buf s last_hash ptr = some s
scan_from (suc fuel) buf s last_hash ptr = do
  key ← hash_block buf ptr
  head ← get_elem? s.table (bit_and key s.mask)
  s' ← scan_block s last_hash key ptr (bit_and key s.mask) head
  let more = scan_from fuel buf s' key (ptr - blksz) in if ltb ptr blksz then some s' else more

-- A round takes a block.
unfoldable pub scan : DeltaIndexScanner → Bytes → ℕ → Option DeltaIndexScanner
scan s buf end = scan_from (end / blksz) buf s 0 (end - blksz)

unfoldable pub scan_blocks : Bytes → ℕ → ℕ → Option DeltaIndexScanner
scan_blocks buf size blocks = do
  sz ← table_size blocks
  scan
      (record {
        table = zeros sz;
        mask = sz - 1;
        entries = zeros (blocks + 1);
        next = zeros (blocks + 1);
        count = 0;
      })
      buf size

-- `newDeltaIndexScanner`
unfoldable pub new_delta_index_scanner : Bytes → ℕ → Option DeltaIndexScanner
new_delta_index_scanner buf size =
    let whole = size - size % blksz in
    if ltb (whole / blksz) 1
    then some (record { table = []; entries = []; next = []; mask = 0; count = 0 })
    else scan_blocks buf whole (whole / blksz)

-- A chain of `countEntries`: its size, and the links with the chain cut at its maximum.
unfoldable pub count_chain : ℕ → List ℕ → ℕ → ℕ → Option (ℕ × List ℕ)
count_chain zero next h size = none
count_chain (suc fuel) next h size =
    if suc size == max_chain_length
    then (do next' ← set_elem next h 0; some (suc size, next'))
    else (do
      h' ← get_elem? next h
      let more = count_chain fuel next h' (suc size) in
          if h' == 0 then some (suc size, next) else more)

-- `countEntries`, over the rest of the table.
unfoldable pub count_entries : List ℕ → List ℕ → Option (ℕ × List ℕ)
count_entries [] next = some (0, next)
count_entries (zero ∷ table) next = count_entries table next
count_entries (suc h ∷ table) next = do
  (size, next') ← count_chain max_chain_length next (suc h) 0
  (cnt, next'') ← count_entries table next'
  some (size + cnt, next'')

-- A chain of `copyEntries`: the entries, and the place of the next one.
unfoldable pub copy_chain : ℕ → DeltaIndexScanner → ℕ → List ℕ → ℕ → Option (List ℕ × ℕ)
copy_chain zero scanner h entries next = none
copy_chain (suc fuel) scanner h entries next = do
  offset ← get_elem? scanner.entries h
  entries' ← set_elem entries next offset
  h' ← get_elem? scanner.next h
  let more = copy_chain fuel scanner h' entries' (suc next) in
      if h' == 0 then some (entries', suc next) else more

-- `copyEntries`, over the rest of the table: the table and the entries. A chain has
-- `maxChainLength` entries at most.
unfoldable pub copy_entries : DeltaIndexScanner → List ℕ → List ℕ → ℕ → Option (List ℕ × List ℕ)
copy_entries scanner [] entries next = some ([], entries)
copy_entries scanner (zero ∷ table) entries next = do
  (table', entries') ← copy_entries scanner table entries next
  some (0 ∷ table', entries')
copy_entries scanner (suc h ∷ table) entries next = do
  (entries', next') ← copy_chain max_chain_length scanner (suc h) entries next
  (table', entries'') ← copy_entries scanner table entries' next'
  some (next ∷ table', entries'')

-- `init`
unfoldable pub init : Bytes → Option DeltaIndex
init buf = do
  scanner ← new_delta_index_scanner buf (length buf)
  (cnt, next) ← count_entries scanner.table scanner.next
  (table, entries) ← copy_entries (record scanner { next = next }) scanner.table (zeros (cnt + 1)) 1
  some (record { table = table; entries = entries; mask = scanner.mask })
