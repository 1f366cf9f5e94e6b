-- ===== src/Kernel/Tables.antt =====
-- The tables of a thread: `rd_get_context_id_locked`, `rd_add_pair_hist_locked`,
-- `rd_reserve_dwarf_event_locked`.
pub mod Scan
pub mod Contexts
use rd_spe_tool.Base.{
  ℕ, zero, suc, ◌+◌, ◌%◌, ◌^◌, Bool, true, false, not, ◌&&◌, ◌||◌, if◌then◌else◌, leb, ◌==◌, List,
  [], ◌∷◌, ◌++◌, Option, none, some, length, get_or, set, replicate, add64, to_u32, is_empty,
  text_eq,
}
use rd_spe_tool.Kernel.State.{
  Thread, Settings, ContextEntry, PairHistEntry, CallchainMode, callchain_off, callchain_fp,
  callchain_dwarf,
}
use rd_spe_tool.Targeted.Bucket.{log2_buckets}

-- How a search of a table ends: the entry that is there, the first free one, or neither.
pub data Found : Type 0 where
  matched : ℕ → Found
  vacant : ℕ → Found
  full : Found

abbrev pub first_free : Option ℕ → Found
first_free none = full
first_free (some i) = vacant i

-- `free_entry`, after an entry that is not in use.
abbrev pub keep_first : Option ℕ → ℕ → Option ℕ
keep_first none i = some i
keep_first (some j) i = some j

-- The loop of both searches, from the `i`-th entry on; `same` compares an entry with the key.
unfoldable pub scan {ℓ} : {E : Type ℓ} → (E → Bool) → (E → Bool) → List E → ℕ → Option ℕ → Found
scan used same [] i free = first_free free
scan used same (e ∷ es) i free =
    let rest = scan used same es (suc i) (if used e then free else keep_first free i) in
    if used e && same e then matched i else rest

abbrev pub empty_context : ContextEntry
empty_context = record { used = false; ips = [] }

abbrev pub drop_context : Thread → Thread × ℕ
drop_context t = (record t { context_dropped = add64 t.context_dropped 1 }, 0)

-- The id of a call chain, 0 if there is none; a new chain takes the first free entry.
unfoldable pub rd_get_context_id_locked : List ℕ → Thread → Thread × ℕ
unfolding scan
rd_get_context_id_locked [] t = drop_context t
rd_get_context_id_locked (ip ∷ ips) t =
    elim (scan ContextEntry.used (λ e. text_eq e.ips (ip ∷ ips)) t.contexts 0 none) [
      | matched i ↦ (t, suc i)
      | vacant i ↦ (
        record t {
          contexts = set t.contexts i (record { used = true; ips = ip ∷ ips });
          context_used = to_u32 (t.context_used + 1);
        },
        suc i,
      )
      | full ↦ drop_context t
    ]

-- One more in a bucket.
abbrev pub bump : ℕ → List ℕ → List ℕ
bump i xs = set xs i (add64 (get_or xs i 0) 1)

pub record PairKey : Type 0 where
  pub seed_pc_offset : ℕ
  pub seed_context_id : ℕ
  pub reuse_pc : ℕ
  pub reuse_context_id : ℕ

unfoldable pub is_pair : PairKey → PairHistEntry → Bool
is_pair key e =
    e.seed_pc_offset == key.seed_pc_offset
    && e.seed_context_id == key.seed_context_id
    && e.reuse_pc == key.reuse_pc
    && e.reuse_context_id == key.reuse_context_id

abbrev pub drop_pair : Thread → Thread
drop_pair t = record t { pair_hist_dropped = add64 t.pair_hist_dropped 1 }

abbrev pub empty_pair : PairHistEntry
empty_pair = record {
  used = false;
  seed_context_id = 0;
  reuse_context_id = 0;
  seed_pc_offset = 0;
  reuse_pc = 0;
  buckets = replicate log2_buckets 0;
}

unfoldable pub new_pair : PairKey → ℕ → PairHistEntry → PairHistEntry
new_pair key bucket e = record {
  used = true;
  seed_context_id = key.seed_context_id;
  reuse_context_id = key.reuse_context_id;
  seed_pc_offset = key.seed_pc_offset;
  reuse_pc = key.reuse_pc;
  buckets = set e.buckets bucket 1;
}

unfoldable pub rd_add_pair_hist_locked : PairKey → ℕ → Thread → Thread
unfolding scan is_pair new_pair
rd_add_pair_hist_locked key bucket t =
    if key.reuse_pc == 0 || leb log2_buckets bucket
    then drop_pair t
    else (elim (scan PairHistEntry.used (is_pair key) t.pair_hist 0 none) [
      | matched i ↦
          let e = get_or t.pair_hist i empty_pair in
          record t { pair_hist = set t.pair_hist i (record e { buckets = bump bucket e.buckets }) }
      | vacant i ↦ record t {
        pair_hist = set t.pair_hist i (new_pair key bucket (get_or t.pair_hist i empty_pair));
        pair_hist_used = to_u32 (t.pair_hist_used + 1);
      }
      | full ↦ drop_pair t
    ])

-- The index of a reserved event, if the mode wants events and one is left.
unfoldable pub rd_reserve_dwarf_event_locked : Settings → Thread → Thread × Option ℕ
rd_reserve_dwarf_event_locked settings t = by_mode settings.callchain_mode
  where
    reserve : Thread × Option ℕ
    reserve =
        if settings.dwarf_event_capacity == 0
        then (t, none)
        else if leb settings.dwarf_event_capacity t.dwarf_event_used
        then (record t { dwarf_event_dropped = add64 t.dwarf_event_dropped 1 }, none)
        else (
          record t { dwarf_event_used = to_u32 (t.dwarf_event_used + 1) },
          some t.dwarf_event_used,
        )

    by_mode : CallchainMode → Thread × Option ℕ
    by_mode callchain_dwarf = reserve
    by_mode callchain_fp = (t, none)
    by_mode callchain_off = (t, none)
