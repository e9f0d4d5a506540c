-- ===== src/Device/Requests.antt =====
-- internal/device/windows.go: what a driver reads from the buffers that the program sends, by the
-- layouts of SENDCMDINPARAMS and of STORAGE_PROPERTY_QUERY with STORAGE_PROTOCOL_SPECIFIC_DATA.
use go_smartmontools.Base.{
  ℕ, zero, suc, ◌+◌, ◌/◌, ◌%◌, ◌^◌, ◌<◌, ◌≡◌, ◌∙◌, refl, sym, ap, arith, [], ◌∷◌, ◌++◌, length,
  zeros, length-replicate, Bytes, byte, le_at,
}
use mathlib.Core.Path.{subst}
use go_smartmontools.Device.Windows.{send_cmd_in, query_buffer}

-- A query for data of an NVMe protocol, with room for `n` bytes behind it.
pub record IsQuery (kind value n : ℕ) (buf : Bytes) : Type 0 where
  pub size : length buf ≡ 40 + n
  pub property_id : le_at 4 buf 0 ≡ 49
  pub query_type : le_at 4 buf 4 ≡ 0
  pub protocol_type : le_at 4 buf 8 ≡ 3
  pub data_type : le_at 4 buf 12 ≡ kind
  pub request_value : le_at 4 buf 16 ≡ value
  pub request_sub_value : le_at 4 buf 20 ≡ 0
  pub data_offset : le_at 4 buf 24 ≡ 32
  pub data_length : le_at 4 buf 28 ≡ n
  pub reserved : le_at 8 buf 32 ≡ 0

-- The header and the protocol data, written out.
abbrev u32 : ℕ → Bytes
u32 v = v % 256 ∷ v / 2 ^ 8 % 256 ∷ v / 2 ^ 16 % 256 ∷ v / 2 ^ 24 % 256 ∷ []

zeros-split : (m n : ℕ) → zeros (m + n) ≡ zeros m ++ zeros n
unfolding zeros
zeros-split zero n = ap zeros (omega arith)
zeros-split (suc m) n = ap zeros (suc_add m n) ∙ ap (λ d. 0 ∷ d) (zeros-split m n)
  where
    suc_add : (m n : ℕ) → suc m + n ≡ suc (m + n)
    suc_add m n = omega arith

query_front :
    (data_type request_value n : ℕ)
    → query_buffer data_type request_value n ≡ (
        (49 ∷ 0 ∷ 0 ∷ 0 ∷ 0 ∷ 0 ∷ 0 ∷ 0 ∷ 3 ∷ 0 ∷ 0 ∷ 0 ∷ [])
        ++ (u32 data_type
            ++ (u32 request_value
                ++ ((0 ∷ 0 ∷ 0 ∷ 0 ∷ 32 ∷ 0 ∷ 0 ∷ 0 ∷ []) ++ (u32 n ++ (zeros 8 ++ zeros n))))))
unfolding query_buffer zeros
query_front data_type request_value n = rw (query_buffer, zeros-split 40 n) refl

u32_lem : (v : ℕ) → v < 2 ^ 32 → le_at 4 (u32 v) 0 ≡ v
unfolding le_at byte
u32_lem v h = omega arith

-- A query that the program builds, for numbers of 32 bits, reads back as the query for that data
-- type, value and length: in a buffer of 40 bytes more than the answer, with the answer behind the
-- 32 bytes of protocol data, and all else 0.
pub query_buffer-IsQuery :
    (data_type request_value n : ℕ)
    → data_type < 2 ^ 32
    → request_value < 2 ^ 32
    → n < 2 ^ 32
    → IsQuery data_type request_value n (query_buffer data_type request_value n)
unfolding le_at byte zeros
query_buffer-IsQuery data_type request_value n hd hv hn =
    subst (IsQuery data_type request_value n) (sym (query_front data_type request_value n))
      (record {
        size = omega (arith, length-replicate {A = ℕ} n 0);
        property_id = refl;
        query_type = refl;
        protocol_type = refl;
        data_type = u32_lem data_type hd;
        request_value = u32_lem request_value hv;
        request_sub_value = refl;
        data_offset = refl;
        data_length = u32_lem n hn;
        reserved = refl;
      })

-- SENDCMDINPARAMS: the size of the answer, the registers and the reserved bytes.
pub record IsCommand (answer feature count num low high command : ℕ) (buf : Bytes) : Type 0 where
  pub size : length buf ≡ 32
  pub buffer_size : le_at 4 buf 0 ≡ answer
  pub features_reg : byte buf 4 ≡ feature
  pub sector_count_reg : byte buf 5 ≡ count
  pub sector_number_reg : byte buf 6 ≡ num
  pub cyl_low_reg : byte buf 7 ≡ low
  pub cyl_high_reg : byte buf 8 ≡ high
  pub drive_head_reg : byte buf 9 ≡ 0xa0
  pub command_reg : byte buf 10 ≡ command
  pub reserved : le_at 21 buf 11 ≡ 0

-- A command that the program builds, for an answer's size of 32 bits, reads back as the command with
-- those registers, for drive 0 in LBA mode, in a buffer of 32 bytes with all else 0.
pub send_cmd_in-IsCommand :
    (answer feature count num low high command : ℕ)
    → answer < 2 ^ 32
    → IsCommand answer feature count num low high command
        (send_cmd_in answer feature count num low high command)
unfolding send_cmd_in le_at byte zeros
send_cmd_in-IsCommand answer feature count num low high command h = record {
  size = refl;
  buffer_size = u32_lem answer h;
  features_reg = refl;
  sector_count_reg = refl;
  sector_number_reg = refl;
  cyl_low_reg = refl;
  cyl_high_reg = refl;
  drive_head_reg = refl;
  command_reg = refl;
  reserved = refl;
}
