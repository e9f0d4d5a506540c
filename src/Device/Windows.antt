-- ===== src/Device/Windows.antt =====
-- internal/device/windows.go and detect_windows.go. `control code in out` is DeviceIoControl on an
-- open handle: what it writes over the front of `out` and the count that it returns, or an errno.
use go_smartmontools.Base.{
  ℕ, ◌+◌, ◌/◌, ◌%◌, ◌^◌, Bool, true, false, ◌&&◌, ◌==◌, ltb, not, if◌then◌else◌, none, some, length,
  set, zeros, Bytes, byte, at, slice, le_read, Result, ok, err, ambiguous_cylinders,
  short_descriptor, errno, short_reply, driver_error, status_driver_error, ◌>>=◌, copy, wrap_err,
  wrap_log_page,
}
use go_smartmontools.Device.{Status, AtaDevice, NvmeDevice}

pub data Reply : Type 0 where
  replied : Bytes → ℕ → Reply
  refused : ℕ → Reply

abbrev pub ioctl_smart_rcv_drive_data : ℕ
ioctl_smart_rcv_drive_data = 0x0007_c088

abbrev pub ioctl_smart_send_drive_cmd : ℕ
ioctl_smart_send_drive_cmd = 0x0007_c084

abbrev pub ioctl_storage_query_property : ℕ
ioctl_storage_query_property = 0x002d_1400

-- `binary.LittleEndian.PutUint32(b[off:off+4], v)`
abbrev pub put_u32 : Bytes → ℕ → ℕ → Bytes
put_u32 b off v =
    set (set (set (set b off (v % 256)) (off + 1) (v / 2 ^ 8 % 256)) (off + 2) (v / 2 ^ 16 % 256))
      (off + 3) (v / 2 ^ 24 % 256)

-- The SENDCMDINPARAMS of both commands: the registers from byte 4 on, for drive 0 in LBA mode.
unfoldable pub send_cmd_in : ℕ → ℕ → ℕ → ℕ → ℕ → ℕ → ℕ → Bytes
send_cmd_in buffer_size feature sector_count sector_num cyl_low cyl_high cmd =
    let b = put_u32 (zeros 32) 0 buffer_size in
    set
      (set
        (set (set (set (set (set b 4 feature) 5 sector_count) 6 sector_num) 7 cyl_low) 8 cyl_high) 9
        0xa0)
      10 cmd

unfoldable pub smart_status_of : ℕ → ℕ → Status
smart_status_of low high =
    if low == 0x4f && high == 0xc2
    then (false, none)
    else if low == 0xf4 && high == 0x2c
    then (true, none)
    else (false, some (ambiguous_cylinders low high))

-- The buffer behind the call and the returned count, or the errno.
unfoldable pub answered : Bytes → Reply → Result (Bytes × ℕ)
answered out (replied written returned) = ok (copy out written, returned)
answered out (refused e) = err (errno e)

-- The guards behind the three calls: a short reply first, then the driver's error.
unfoldable pub rcv_reply : Bytes → ℕ → Result Bytes
rcv_reply out returned =
    if ltb returned 528
    then err (short_reply "IOCTL_SMART_RCV_DRIVE_DATA" returned)
    else if not (byte out 4 == 0)
    then err (driver_error (byte out 4) (byte out 5))
    else slice out 16 528

unfoldable pub query_reply : ℕ → Bytes → ℕ → Result Bytes
query_reply data_len out returned =
    if ltb returned (40 + data_len)
    then err (short_reply "NVMe query" returned)
    else (do tail ← slice out 40 (length out); ok (copy (zeros data_len) tail))

unfoldable pub bus_reply : Bytes → ℕ → Result Bool
bus_reply out returned =
    if ltb returned 32
    then err (short_descriptor returned)
    else (do bus_type ← le_read 4 out 28; ok (bus_type == 17))

-- The returned registers of `SmartStatus`.
unfoldable pub status_registers : Bytes → Result Status
status_registers out = do low ← at out 19; high ← at out 20; ok (smart_status_of low high)

-- What follows the call of `SmartStatus`: the driver's error, then the registers.
unfoldable pub status_reply : Reply → Result Status
unfolding status_registers
status_reply (refused e) = ok (false, some (errno e))
status_reply (replied written returned) = do
  let out = copy (zeros 24) written
  driver ← at out 4
  (if not (driver == 0)
      then ok (false, some (status_driver_error driver))
      else status_registers out)

-- The query: header, protocol data, then room for the answer, in one buffer for both ways.
unfoldable pub query_buffer : ℕ → ℕ → ℕ → Bytes
query_buffer data_type request_value data_len =
    let b = put_u32 (put_u32 (zeros (40 + data_len)) 0 49) 4 0 in
    let b' = put_u32 (put_u32 (put_u32 b 8 3) 12 data_type) 16 request_value in
    put_u32 (put_u32 (put_u32 b' 20 0) 24 32) 28 data_len

module _ (control : ℕ → Bytes → Bytes → Reply) where
  unfoldable pub rcv_drive_data : ℕ → ℕ → ℕ → ℕ → ℕ → ℕ → Result Bytes
  unfolding answered send_cmd_in rcv_reply
  rcv_drive_data cmd feature sector_num cyl_low cyl_high sector_count = do
    let in_buf = send_cmd_in 512 feature sector_count sector_num cyl_low cyl_high cmd
    let out_buf = zeros 528
    (out, returned) ← answered out_buf (control ioctl_smart_rcv_drive_data in_buf out_buf)
    rcv_reply out returned

  unfoldable pub windows_ata_device : AtaDevice
  unfolding status_reply send_cmd_in
  windows_ata_device = record {
    identify = rcv_drive_data 0xec 0 0 0 0 1;
    smart_read_data = rcv_drive_data 0xb0 0xd0 0 0x4f 0xc2 1;
    smart_read_thresholds = rcv_drive_data 0xb0 0xd1 1 0x4f 0xc2 1;
    smart_status =
        status_reply
          (control ioctl_smart_send_drive_cmd (send_cmd_in 0 0xda 0 0 0x4f 0xc2 0xb0) (zeros 24));
    smart_read_log = λ log_addr. rcv_drive_data 0xb0 0xd5 log_addr 0x4f 0xc2 1;
  }

  unfoldable pub nvme_query : ℕ → ℕ → ℕ → Result Bytes
  unfolding answered query_buffer query_reply
  nvme_query data_type request_value data_len = do
    let buf = query_buffer data_type request_value data_len
    (out, returned) ← answered buf (control ioctl_storage_query_property buf buf)
    query_reply data_len out returned

  unfoldable pub windows_nvme_device : NvmeDevice
  windows_nvme_device = record {
    identify_controller = wrap_err "NVMe Identify Controller" (nvme_query 1 1 4096);
    get_log_page = λ log_id size. wrap_log_page log_id (nvme_query 2 log_id size);
  }

  -- `IsNVMe`, behind `openDevice`: bus type 17 in the device descriptor.
  unfoldable pub query_is_nvme : Result Bool
  unfolding answered bus_reply
  query_is_nvme = do
    let in_buf = put_u32 (put_u32 (zeros 8) 0 0) 4 0
    let out_buf = zeros 512
    (out, returned) ←
        wrap_err "STORAGE_QUERY_PROPERTY"
          (answered out_buf (control ioctl_storage_query_property in_buf out_buf))
    bus_reply out returned
