-- ===== src/Device/Pages.antt =====
-- internal/device: the two implementations of `NVMeDevice` against the interface's promise.
use mathlib.Core.Path.{subst}
use go_smartmontools.Base.{
  ℕ, ◌+◌, ◌<◌, ◌≡◌, ◌∙◌, refl, arith, ltb, [], ◌∷◌, length, length-set, zeros, length-zeros, Bytes,
  slice_in, Result, ok, err, panic, length-copy, wrap_err, wrap_log_page, String, Bool-cases, inl,
  inr,
}
use go_smartmontools.Device.{NvmeDevice, Syscall, checked}
use go_smartmontools.Device.Linux.{NvmeAdminCmd, nvme_admin, linux_nvme_device}
use go_smartmontools.Device.Windows.{
  Reply, answered, put_u32, query_buffer, query_reply, nvme_query, windows_nvme_device,
}
use go_smartmontools.Device.Agreement.{
  HasLength, HasLength-bind, checked-ne-panic, answered-ne-panic, length-answered,
}

-- The interface's promise of an NVMe drive, for log pages that are not empty.
pub record ReadsPages (dev : NvmeDevice) : Type 0 where
  pub identify_controller : HasLength 4096 dev.identify_controller
  pub get_log_page : (log_id size : ℕ) → 0 < size → HasLength size (dev.get_log_page log_id size)

wrap_err-HasLength :
    (n : ℕ) (what : String) (r : Result Bytes) → HasLength n r → HasLength n (wrap_err what r)
unfolding wrap_err
wrap_err-HasLength n what (ok d) h = h
wrap_err-HasLength n what (err e) h = tt
wrap_err-HasLength n what panic h = h

wrap_log_page-HasLength :
    (n log_id : ℕ) (r : Result Bytes) → HasLength n r → HasLength n (wrap_log_page log_id r)
unfolding wrap_log_page
wrap_log_page-HasLength n log_id (ok d) h = h
wrap_log_page-HasLength n log_id (err e) h = tt
wrap_log_page-HasLength n log_id panic h = h

nvme_admin-HasLength :
    (admin : NvmeAdminCmd → Bytes → Syscall) (opcode nsid cdw10 cdw11 : ℕ) (buf : Bytes)
    → 0 < length buf
    → HasLength (length buf) (nvme_admin admin opcode nsid cdw10 cdw11 buf)
unfolding nvme_admin
nvme_admin-HasLength admin opcode nsid cdw10 cdw11 [] h = absurd (omega arith)
nvme_admin-HasLength admin opcode nsid cdw10 cdw11 (b ∷ buf) h =
    HasLength-bind (length (b ∷ buf)) (checked (admin _ (b ∷ buf))) _ (checked-ne-panic _)
      λ w e. length-copy (b ∷ buf) w

admin_zeros :
    (admin : NvmeAdminCmd → Bytes → Syscall) (opcode nsid cdw10 cdw11 n : ℕ)
    → 0 < n
    → HasLength n (nvme_admin admin opcode nsid cdw10 cdw11 (zeros n))
admin_zeros admin opcode nsid cdw10 cdw11 n h =
    subst (λ m. HasLength m (nvme_admin admin opcode nsid cdw10 cdw11 (zeros n))) (length-zeros n)
      (nvme_admin-HasLength admin opcode nsid cdw10 cdw11 (zeros n) (omega (arith, length-zeros n)))

-- On Linux, Identify Controller answers 4096 bytes or an error, and a log page of a size that is not
-- 0 that many bytes or an error, whatever the kernel writes; and nothing panics.
pub linux_nvme_device-ReadsPages :
    (admin : NvmeAdminCmd → Bytes → Syscall) → ReadsPages (linux_nvme_device admin)
unfolding linux_nvme_device
linux_nvme_device-ReadsPages admin = record {
  identify_controller = wrap_err-HasLength 4096 _ _ (admin_zeros admin _ _ _ _ 4096 (omega arith));
  get_log_page =
      λ log_id size h. wrap_log_page-HasLength size log_id _ (admin_zeros admin _ _ _ _ size h);
}

length-put_u32 : (b : Bytes) (off v : ℕ) → length (put_u32 b off v) ≡ length b
length-put_u32 b off v = simp length-set refl

length-query_buffer :
    (data_type request_value n : ℕ) → length (query_buffer data_type request_value n) ≡ 40 + n
unfolding query_buffer
length-query_buffer data_type request_value n = simp (length-put_u32, length-zeros) refl

query_reply-HasLength :
    (n : ℕ) (out : Bytes) (returned : ℕ)
    → length out ≡ 40 + n
    → HasLength n (query_reply n out returned)
unfolding query_reply
query_reply-HasLength n out returned h = elim (Bool-cases (ltb returned (40 + n))) [
  | inl e ↦ rw e tt
  | inr e ↦
      rw (e, slice_in out 40 (length out) n (omega arith) (omega arith))
        (length-copy (zeros n) _ ∙ length-zeros n)
]

nvme_query-HasLength :
    (control : ℕ → Bytes → Bytes → Reply) (data_type request_value n : ℕ)
    → HasLength n (nvme_query control data_type request_value n)
unfolding nvme_query
nvme_query-HasLength control data_type request_value n =
    let buf = query_buffer data_type request_value n in
    HasLength-bind n (answered buf (control _ buf buf)) _ (answered-ne-panic buf _) λ a e.
      query_reply-HasLength n a.0 a.1
        (length-answered buf _ a e ∙ length-query_buffer data_type request_value n)

-- On Windows, Identify Controller answers 4096 bytes or an error, and a log page of a size that is
-- not 0 that many bytes or an error, whatever the driver writes and returns; and nothing panics.
pub windows_nvme_device-ReadsPages :
    (control : ℕ → Bytes → Bytes → Reply) → ReadsPages (windows_nvme_device control)
unfolding windows_nvme_device
windows_nvme_device-ReadsPages control = record {
  identify_controller = wrap_err-HasLength 4096 _ _ (nvme_query-HasLength control 1 1 4096);
  get_log_page = λ log_id size h.
      wrap_log_page-HasLength size log_id _ (nvme_query-HasLength control 2 log_id size);
}
