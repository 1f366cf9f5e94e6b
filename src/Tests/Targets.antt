-- ===== src/Tests/Targets.antt =====
-- Inputs for the manifest, the operand decoder and the shell quoting.
use rd_spe_tool.Base.{
  ℕ, ◌+◌, ◌≤◌, ◌<◌, ◌≡◌, refl, true, false, List, [], ◌∷◌, some, none, Text, length, ◌⊎◌, ◌++◌,
  codes, arith, if◌then◌else◌, ◌==◌, text_eq, has_prefix,
}
use rd_spe_tool.Base.Int.{pos}
use rd_spe_tool.Base.Sort.{sort}
use rd_spe_tool.Targeted.Text.{
  shell_quote, split_at, trim_ascii_space, split_comma, split_on, read_decimal, read_number,
}
use rd_spe_tool.Targeted.Text.Quote.{read_word, read_word-shell_quote}
use rd_spe_tool.Targeted.Operand.{
  parse_access_size_from_dest, parse_reg_name, read_shift, Result, returned, thrown, DecodeTemplate,
  ext_lsl,
}
use rd_spe_tool.Targeted.Operand.Template.{
  decode_from_asm_operands, is_filterable_hotspot_error, rd_validate_target, bind,
}
use rd_spe_tool.Targeted.Operand.Template.Laws.{
  decode_from_asm_operands_filterable, rd_validate_target-decode_from_asm_operands,
}
use rd_spe_tool.Targeted.Manifest.{Candidate, HotTarget, Loaded, rank_targets, candidate_before}
use rd_spe_tool.Targeted.Manifest.Loading.{rank_targets-Decided}
use rd_spe_tool.Targeted.Manifest.Chosen.{Decided}

read_word-shell_quote_example :
    read_word false (shell_quote (codes "/tmp/it's here")) ≡ some (codes "/tmp/it's here")
read_word-shell_quote_example = read_word-shell_quote (codes "/tmp/it's here")

abbrev indexed_load : Text
indexed_load = codes "x0, [x1, x2, lsl #3]"

abbrev indexed_template : DecodeTemplate
indexed_template = record {
  access_size = 8;
  base_reg = pos 1;
  base_is_sp = false;
  has_imm = false;
  has_index = true;
  index_is_32 = false;
  index_is_zero = false;
  extend = ext_lsl;
  shift = 3;
  index_reg = pos 2;
  imm = pos 0;
}

indexed_load_decoded :
    decode_from_asm_operands (codes "ldr") indexed_load ≡ returned indexed_template
unfolding decode_from_asm_operands split_at parse_access_size_from_dest trim_ascii_space split_comma
    split_on parse_reg_name text_eq read_decimal read_shift read_number
indexed_load_decoded = refl

rd_validate_target-decode_from_asm_operands_example :
    rd_validate_target 0x401234 indexed_template ≡ true
rd_validate_target-decode_from_asm_operands_example =
    rd_validate_target-decode_from_asm_operands (codes "ldr") indexed_load indexed_template 0x401234
      indexed_load_decoded (omega arith) (λ e. ground (arith, e))

-- No digit follows the sign.
sign_only : parse_reg_name (codes "x-") ≡ none
unfolding parse_reg_name text_eq read_decimal trim_ascii_space
sign_only = refl

wide_load_thrown :
    decode_from_asm_operands (codes "ldr") (codes "q0, [x1]")
    ≡ thrown (codes "watchpoint only supports accesses up to 8 bytes")
unfolding decode_from_asm_operands split_at parse_access_size_from_dest trim_ascii_space
wide_load_thrown = refl

decode_from_asm_operands_filterable_example :
    is_filterable_hotspot_error (codes "watchpoint only supports accesses up to 8 bytes") ≡ true
decode_from_asm_operands_filterable_example =
    decode_from_asm_operands_filterable (codes "ldr") (codes "q0, [x1]")
      (codes "watchpoint only supports accesses up to 8 bytes") wide_load_thrown

-- Two hotspots, the second with an instruction that is not supported.
abbrev two_candidates : List Candidate
two_candidates =
    (16, record { sample_count = 9; candidate_score = 0; has_candidate_score = false })
    ∷ (32, record { sample_count = 4; candidate_score = 0; has_candidate_score = false })
    ∷ []

abbrev scored : Candidate
scored = (16, record { sample_count = 9; candidate_score = 40; has_candidate_score = true })

scored_tie : candidate_before scored scored ≡ false
unfolding candidate_before
scored_tie = refl

abbrev target_at : ℕ → ℕ → HotTarget
target_at pc_offset samples = record {
  pc_offset = pc_offset;
  abs_pc = 0;
  aggregated_samples = samples;
  path = codes "/bin/app";
  mnemonic = codes "ldr";
  operands = indexed_load;
  decode = indexed_template;
}

abbrev only_first : ℕ → ℕ → Result HotTarget
only_first pc_offset samples =
    if pc_offset == 16
    then returned (target_at pc_offset samples)
    else thrown (codes "unsupported memory instruction 'ldp'")

abbrev shifted : ℕ → Result ℕ
shifted pc_offset = returned (pc_offset + 0x400000)

abbrev first_loaded : Loaded
first_loaded = record {
  targets = record (target_at 16 9) { abs_pc = 0x400010 } ∷ [];
  rejected =
      record {
        pc_offset = 32;
        aggregated_samples = 4;
        reason = codes "unsupported memory instruction 'ldp'";
      }
      ∷ [];
  truncated = 0;
}

first_ranked :
    rank_targets 4 only_first shifted (codes "a.hotpc") two_candidates ≡ returned first_loaded
unfolding rank_targets bind sort is_filterable_hotspot_error has_prefix candidate_before
first_ranked = refl

rank_targets-Decided_example :
    (taken : List Candidate) × (cut : List Candidate) × (sort candidate_before two_candidates
      ≡ taken ++ cut)
    × Decided only_first shifted taken first_loaded.targets first_loaded.rejected
    × (first_loaded.truncated ≡ length cut)
    × ((cut ≡ []) ⊎ (length first_loaded.targets ≡ 4))
    × (0 < 1)
    × (1 ≤ 4)
rank_targets-Decided_example =
    rank_targets-Decided 4 only_first shifted (codes "a.hotpc") two_candidates first_loaded
      first_ranked (omega arith)
