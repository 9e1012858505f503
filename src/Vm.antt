-- ===== src/Vm.antt =====
-- src/vm.rs: the kernel's page directory and page tables. A directory and a table are arrays of 1024
-- entries, so each is a function of the index; both indices of an address are below 1024. The
-- tables are reached by the addresses in the directory, so they are a function of their address.
pub mod Translate
pub mod Walk
pub mod MapPage
pub mod MapPages
pub mod Ranges
pub mod Setup
pub mod Segments
mod Examples
use sprocket.Base.{
  ℕ, zero, suc, ◌+◌, ◌-◌, ◌^◌, Bool, true, not, ◌&&◌, Option, none, some, List, [], ◌∷◌, bit_and,
  bit_or, ◌==◌, leb, wrapping_sub, if◌then◌else◌, Run, Cmd, done, pure, panic, spin, assert, ◌>>=◌,
  ◌>>◌,
}
use sprocket.Mem.{
  kernbase, kernlink, extmem, phystop, devspace, pgsize, page_rounddown, offset, to_virt, to_phys,
  sub_addr, page_dir_index, page_table_index,
}

-- The flags of `Entry`. An entry, in a directory or in a table, is the number that it wraps.
abbrev pub present : ℕ
present = 1

abbrev pub writable : ℕ
writable = 2 ^ 1

abbrev pub user : ℕ
user = 2 ^ 2

-- `Entry::address`
unfoldable pub address : (entry : ℕ) → ℕ
address entry = bit_and entry (2 ^ 32 - 1 - 0xFFF)

pub record Kmap : Type 0 where
  pub virt : ℕ
  pub p_start : ℕ
  pub p_end : ℕ
  pub perm : ℕ

-- The entries of `KMAP`, where `data_begin` is the address of the linker's symbol `data`: the memory
-- below the kernel's image, its text, its data and the free memory, and the devices.
abbrev pub kmap_low : Kmap
kmap_low = record { virt = kernbase; p_start = 0; p_end = extmem; perm = writable }

abbrev pub kmap_text : (data_begin : ℕ) → Kmap
kmap_text data_begin = record {
  virt = kernlink;
  p_start = to_phys kernlink;
  p_end = to_phys data_begin;
  perm = 0;
}

abbrev pub kmap_data : (data_begin : ℕ) → Kmap
kmap_data data_begin = record {
  virt = data_begin;
  p_start = to_phys data_begin;
  p_end = phystop;
  perm = writable;
}

abbrev pub kmap_devices : Kmap
kmap_devices = record { virt = devspace; p_start = devspace; p_end = 0; perm = writable }

abbrev pub kmap : (data_begin : ℕ) → List Kmap
kmap data_begin = kmap_low ∷ kmap_text data_begin ∷ kmap_data data_begin ∷ kmap_devices ∷ []

-- `heap` is the state of the global allocator, and `root` the address of the directory.
pub record Paging (H : Type 0) : Type 0 where
  pub root : ℕ
  pub dir : ℕ → ℕ
  pub tables : ℕ → ℕ → ℕ
  pub heap : H

-- An array with one entry replaced.
abbrev pub put : {A : Type 0} → (ℕ → A) → ℕ → A → ℕ → A
put f i v j = if j == i then v else f j

-- The address of a box of one page, and the allocator's state after that; `none` if there is no room
-- for one, which ends the kernel.
abbrev pub Boxes : Type 0 → Type 0
Boxes H = H → Option (ℕ × H)

-- The number of pages of the address space.
unfoldable pub num_pages : ℕ
num_pages = 2 ^ 20

module _ {H : Type 0} (box : Boxes H) where
  -- The entry is given by the address of its table and its index there.
  unfoldable pub walkpgdir : (va : ℕ) → (allocate : Bool) → Cmd (Paging H) (Option (ℕ × ℕ))
  unfolding address page_dir_index page_table_index
  walkpgdir va allocate p =
      let pde = p.dir (page_dir_index va) in
      if bit_and pde present == present
      then done (some (to_virt (address pde), page_table_index va)) p
      else if not allocate
      then done none p
      else elim (box p.heap) [
        | none ↦ panic
        | some (pgtab, heap) ↦
            let new_entry = bit_or 0 (to_phys pgtab) in
            done (some (pgtab, page_table_index va)) (record p {
              dir =
                  put p.dir (page_dir_index va)
                    (bit_or (bit_or (bit_or new_entry present) user) writable);
              tables = put p.tables pgtab (λ i. 0);
              heap = heap;
            })
      ]

  -- the body of the loop of `map_pages` behind the walk, up to the store of the new entry
  unfoldable pub store_entry :
      (pa permissions : ℕ) → (slot : ℕ × ℕ) → Cmd (Paging H) (Option (Unit {0}))
  store_entry pa permissions (tab, index) p =
      if bit_and (p.tables tab index) present == present
      then panic
      else done (some tt) (record p {
        tables =
            put p.tables tab (put (p.tables tab) index (bit_or (bit_or permissions present) pa));
      })

  -- the `?` behind the walk
  unfoldable pub at_slot :
      (pa permissions : ℕ) → Option (ℕ × ℕ) → Cmd (Paging H) (Option (Unit {0}))
  unfolding store_entry
  at_slot pa permissions none = pure none
  at_slot pa permissions (some slot) = store_entry pa permissions slot

  unfoldable pub map_page : (a pa permissions : ℕ) → Cmd (Paging H) (Option (Unit {0}))
  unfolding walkpgdir at_slot
  map_page a pa permissions = walkpgdir a true >>= at_slot pa permissions

  -- The loop of `map_pages`, for at most so many rounds.
  unfoldable pub map_from :
      (rounds : ℕ) → (a last pa permissions : ℕ) → Cmd (Paging H) (Option (Unit {0}))
  unfolding map_page offset
  map_from zero a last pa permissions = λ _. spin
  map_from (suc rounds) a last pa permissions = do
    mapped ← map_page a pa permissions
    elim mapped [
      | none ↦ pure none
      | some u ↦
          if a == last
          then pure (some tt)
          else map_from rounds (offset 1 pgsize a) last (offset 1 pgsize pa) permissions
    ]

  -- The loop meets the last page within as many rounds as there are pages.
  unfoldable pub map_pages : (va size pa permissions : ℕ) → Cmd (Paging H) (Option (Unit {0}))
  unfolding map_from page_rounddown offset
  map_pages va size pa permissions =
      map_from num_pages (page_rounddown va) (page_rounddown (offset 1 (wrapping_sub size 1) va)) pa
        permissions

  -- the loop of `setupkvm`
  unfoldable pub map_all : List Kmap → Cmd (Paging H) (Option (Unit {0}))
  unfolding map_pages
  map_all [] = pure (some tt)
  map_all (k ∷ ks) = do
    mapped ← map_pages k.virt (sub_addr k.p_end k.p_start) k.p_start k.perm
    elim mapped [ none ↦ pure none | some u ↦ map_all ks ]

  -- The tables are those of the memory at the start.
  unfoldable pub setupkvm :
      (data_begin : ℕ) → (tables : ℕ → ℕ → ℕ) → H → Run (Paging H) (Option (Unit {0}))
  unfolding map_all
  setupkvm data_begin tables h = elim (box h) [
    | none ↦ panic
    | some (root, heap) ↦
        (do assert (leb (to_virt phystop) devspace); map_all (kmap data_begin))
          (record { root = root; dir = λ i. 0; tables = tables; heap = heap })
  ]

  -- `switchkvm`, with `lcr3`: the value for the control register
  abbrev pub switchkvm : (kpgdir : ℕ) → ℕ
  switchkvm kpgdir = to_phys kpgdir

  -- the value of `KPGDIR`, and that of the control register
  unfoldable pub kvmalloc : (data_begin : ℕ) → (tables : ℕ → ℕ → ℕ) → H → Run (Paging H) (ℕ × ℕ)
  unfolding setupkvm
  kvmalloc data_begin tables h = elim (setupkvm data_begin tables h) [
    | done (some u) p ↦ done (p.root, switchkvm p.root) p
    | done none p ↦ panic
    | panic ↦ panic
    | spin ↦ spin
  ]
