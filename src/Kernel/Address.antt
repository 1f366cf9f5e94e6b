-- ===== src/Kernel/Address.antt =====
-- The address that a sampled instruction touches: `rd_read_perf_reg`,
-- `rd_compute_effective_address`.
use rd_spe_tool.Base.{
  ℕ, ◌+◌, ◌-◌, ◌*◌, ◌%◌, ◌^◌, Bool, false, ◌||◌, if◌then◌else◌, ltb, leb, ◌==◌, get_or, add64,
}
use rd_spe_tool.Base.Int.{ℤ, pos, negsuc}
use rd_spe_tool.Kernel.State.{Decode, PtRegs}

-- `PERF_REG_ARM64_X29`, `_LR`, `_SP` and `_PC` of the Linux ABI are 29 to 32.
unfoldable pub rd_read_perf_reg : PtRegs → ℤ → Bool → ℕ
rd_read_perf_reg regs (negsuc n) is_sp = if is_sp then regs.sp else 0
rd_read_perf_reg regs (pos n) is_sp =
    if is_sp || n == 31
    then regs.sp
    else if leb n 29
    then get_or regs.regs n 0
    else if n == 30
    then get_or regs.regs 30 0
    else if n == 32
    then regs.pc
    else 0

-- A signed value as 64 bits.
unfoldable pub to_u64 : ℤ → ℕ
to_u64 (pos n) = n % 2 ^ 64
to_u64 (negsuc n) = (2 ^ 64 - 1) - n % 2 ^ 64

-- `(u64)((s64)(s32)raw)`
unfoldable pub sign_extend_32 : ℕ → ℕ
sign_extend_32 raw =
    let low = raw % 2 ^ 32 in if ltb low (2 ^ 31) then low else low + (2 ^ 64 - 2 ^ 32)

-- `x << shift` on 64 bits. From 64 on, where C does not define it, this gives 0.
unfoldable pub shift_left : ℕ → ℕ → ℕ
shift_left x shift = x * 2 ^ shift % 2 ^ 64

-- The `switch` over `dec->extend`.
unfoldable pub extend_index : Decode → ℕ → ℕ
unfolding sign_extend_32 shift_left
extend_index dec raw =
    let narrow = if dec.index_is_32 then raw % 2 ^ 32 else raw in
    if dec.extend == 0
    then narrow
    else if dec.extend == 1
    then shift_left narrow dec.shift
    else if dec.extend == 2
    then shift_left (raw % 2 ^ 32) dec.shift
    else if dec.extend == 3
    then shift_left (sign_extend_32 raw) dec.shift
    else if dec.extend == 4
    then shift_left raw dec.shift
    else if dec.extend == 5
    then shift_left raw dec.shift
    else 0

unfoldable pub rd_compute_effective_address : Decode → PtRegs → ℕ
unfolding rd_read_perf_reg to_u64 extend_index
rd_compute_effective_address dec regs =
    let base = rd_read_perf_reg regs dec.base_reg dec.base_is_sp in
    let displaced = if dec.has_imm then add64 base (to_u64 dec.imm) else base in
    let raw = if dec.index_is_zero then 0 else rd_read_perf_reg regs dec.index_reg false in
    if dec.has_index then add64 displaced (extend_index dec raw) else displaced
