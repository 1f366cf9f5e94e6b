-- ===== src/Targeted/Manifest.antt =====
-- `load_targets`: the `.hotpc` manifest, its hotspots added up and ranked, and those that become
-- targets. `realpath` is the C library's; `decode_target` (objdump) and `resolve` (the maps of the
-- process) are arguments.
pub mod Order
pub mod Chosen
pub mod Loading
pub mod Roundtrip
use rd_spe_tool.Base.{
  ℕ, ◌+◌, ◌-◌, ◌%◌, ◌^◌, min, Bool, true, false, not, ◌&&◌, if◌then◌else◌, ltb, leb, ◌==◌, List, [],
  ◌∷◌, ◌++◌, Option, none, some, Text, codes, text_eq, has_prefix, is_empty, length, get_or, drop,
  add64, nat_eq,
}
use rd_spe_tool.Base.Dict.{update}
use rd_spe_tool.Base.Sort.{sort}
use rd_spe_tool.Monitor.Maps.{normalize_filesystem_path}
use rd_spe_tool.Targeted.Text.{split_tab, Number, read_decimal, read_number}
use rd_spe_tool.Targeted.Operand.{Result, returned, thrown, DecodeTemplate}
use rd_spe_tool.Targeted.Operand.Template.{bind, is_filterable_hotspot_error}

pub record AggregatedHotspot : Type 0 where
  pub sample_count : ℕ
  pub candidate_score : ℕ
  pub has_candidate_score : Bool

abbrev no_samples : AggregatedHotspot
no_samples = record { sample_count = 0; candidate_score = 0; has_candidate_score = false }

abbrev pub Candidate : Type 0
Candidate = ℕ × AggregatedHotspot

-- The two locals that the lines fill.
pub record Manifest : Type 0 where
  pub main_binary : Text
  pub aggregated : List Candidate

pub record HotTarget : Type 0 where
  pub pc_offset : ℕ
  pub abs_pc : ℕ
  pub aggregated_samples : ℕ
  pub path : Text
  pub mnemonic : Text
  pub operands : Text
  pub decode : DecodeTemplate

pub record RejectedTarget : Type 0 where
  pub pc_offset : ℕ
  pub aggregated_samples : ℕ
  pub reason : Text

-- The members that `load_targets` fills.
pub record Loaded : Type 0 where
  pub targets : List HotTarget
  pub rejected : List RejectedTarget
  pub truncated : ℕ

-- The value of `strtoull`.
unfoldable pub to_uint64 : Number → ℕ
to_uint64 n =
    if leb (2 ^ 64) n.magnitude
    then 2 ^ 64 - 1
    else if n.negative
    then (2 ^ 64 - n.magnitude) % 2 ^ 64
    else n.magnitude

-- The fields after the second of a hotspot line, added to what its offset has already.
unfoldable pub aggregate : List Text → AggregatedHotspot → AggregatedHotspot
unfolding to_uint64
aggregate fields item =
    let counted : AggregatedHotspot = record item {
      sample_count = add64 item.sample_count (to_uint64 (read_decimal (get_or fields 2 [])));
    } in
    if leb 8 (length fields)
    then record counted {
      candidate_score = add64 item.candidate_score (to_uint64 (read_decimal (get_or fields 7 [])));
      has_candidate_score = true;
    }
    else counted

unfoldable pub score_of : AggregatedHotspot → ℕ
score_of h = if h.has_candidate_score then h.candidate_score else h.sample_count

-- The comparator of the sort: larger scores first, then more samples, then lower offsets.
unfoldable pub candidate_before : Candidate → Candidate → Bool
unfolding score_of
candidate_before (a_pc, a) (b_pc, b) =
    if not (score_of a == score_of b)
    then ltb (score_of b) (score_of a)
    else if not (a.sample_count == b.sample_count)
    then ltb b.sample_count a.sample_count
    else ltb a_pc b_pc

abbrev pub uint32_max : ℕ
uint32_max = 2 ^ 32 - 1

module _ (realpath : Text → Option Text) (main_binary_path : Text) where
  unfoldable pub read_hotspot : List Text → Manifest → Result Manifest
  unfolding aggregate
  read_hotspot fields m =
      let pc_offset = to_uint64 (read_number (get_or fields 4 [])) in
      let path = normalize_filesystem_path realpath (get_or fields 5 []) in
      if ltb (length fields) 6
      then thrown (codes "bad hotspot line in manifest")
      else if not (is_empty path) && not (text_eq path main_binary_path)
      then thrown (codes "targeted_rd only supports main binary hotspots; got " ++ path)
      else returned
          (record m { aggregated = update pc_offset no_samples (aggregate fields) m.aggregated })

  unfoldable pub read_line : Text → Manifest → Result Manifest
  unfolding read_hotspot
  read_line line m =
      if has_prefix (codes "hotspot_main_binary=") line
      then returned (record m {
        main_binary =
            normalize_filesystem_path realpath (drop (length (codes "hotspot_main_binary=")) line);
      })
      else if not (has_prefix (codes "hotspot=") line)
      then returned m
      else read_hotspot (split_tab (drop (length (codes "hotspot=")) line)) m

  unfoldable pub read_lines : List Text → Manifest → Result Manifest
  unfolding bind read_line
  read_lines [] m = returned m
  read_lines (line ∷ lines) m = bind (read_line line m) (λ next. read_lines lines next)

abbrev pub accept : HotTarget → Loaded → Loaded
accept target s = record s { targets = s.targets ++ target ∷ [] }

abbrev pub reject : Candidate → Text → Loaded → Loaded
reject (pc_offset, h) reason s = record s {
  rejected =
      s.rejected
      ++ record { pc_offset = pc_offset; aggregated_samples = h.sample_count; reason = reason }
        ∷ [];
}

-- `capacity` is `_bp_capacity`.
module _ (capacity : ℕ) (decode_target : ℕ → ℕ → Result HotTarget) (resolve : ℕ → Result ℕ) where
  -- The `try` block for one candidate.
  unfoldable pub make_target : Candidate → Result HotTarget
  unfolding bind
  make_target (pc_offset, h) =
      bind (decode_target pc_offset h.sample_count) (λ target.
        bind (resolve pc_offset) (λ abs_pc. returned (record target { abs_pc = abs_pc })))

  -- One round of the loop over the ranked candidates, where there is room.
  unfoldable pub take_candidate : Candidate → Loaded → Result Loaded
  unfolding make_target
  take_candidate candidate s = elim (make_target candidate) [
    | returned target ↦ returned (accept target s)
    | thrown reason ↦
        if is_filterable_hotspot_error reason
        then returned (reject candidate reason s)
        else thrown reason
  ]

  unfoldable pub choose_targets : List Candidate → Loaded → Result Loaded
  unfolding take_candidate
  choose_targets [] s = returned s
  choose_targets (candidate ∷ order) s =
      let next = bind (take_candidate candidate s) (λ t. choose_targets order t) in
      if leb capacity (length s.targets)
      then returned (record s { truncated = min (length (candidate ∷ order)) uint32_max })
      else next

  -- After the manifest is read.
  unfoldable pub rank_targets : Text → List Candidate → Result Loaded
  unfolding choose_targets
  rank_targets target_file aggregated =
      bind
        (choose_targets (sort candidate_before aggregated)
          (record { targets = []; rejected = []; truncated = 0 }))
        (λ s.
          if not (length s.targets == 0)
          then returned s
          else if not (length s.rejected == 0)
          then thrown (
              codes "no supported hotspots remain after filtering unsupported targets from "
              ++ target_file)
          else thrown (codes "no supported hotspots found in " ++ target_file))

  unfoldable pub load_targets :
      (Text → Option Text) → Text → Text → Option (List Text) → Result Loaded
  unfolding rank_targets
  load_targets realpath main_binary_path target_file none =
      thrown (codes "cannot open hotspot manifest " ++ target_file)
  load_targets realpath main_binary_path target_file (some lines) =
      bind
        (read_lines realpath main_binary_path lines (record { main_binary = []; aggregated = [] }))
        (λ m.
          if not (is_empty m.main_binary) && not (text_eq m.main_binary main_binary_path)
          then thrown (codes "hotspot manifest main binary does not match current executable")
          else if length m.aggregated == 0
          then thrown (codes "no hotspots found in " ++ target_file)
          else rank_targets target_file m.aggregated)
