-- ===== src/Hal/Posix/Tests.antt =====
-- hal/posix/vl_hal_posix.c: a machine with a wired and a wireless interface, and one that stores.
use vecti_license.Base.{
  ℕ, ◌≡◌, ◌⊎◌, ◌≤◌, inr, refl, sym, ap, arith, Bool, true, false, ◌==◌, if◌then◌else◌, Option, some,
  none, List, [], ◌∷◌, ◌++◌, length, take,
}
use vecti_license.Base.Words.{byte, le_bytes}
use vecti_license.Api.{ok, platform, not_found}
use vecti_license.Hal.{since_epoch}
use vecti_license.Hal.Posix.{Os, PosixCtx}
use vecti_license.Base.Text.{codes}
use vecti_license.Hal.Posix.Text.{is_trimmed, trim_loop, read_text_file}
use vecti_license.Hal.Posix.Interfaces.{
  mac_is_meaningful, is_skipped, iface_score, better, read_iface_mac, has_mac, is_eligible,
  pick_loop, picked, pick_iface, pick_iface_best,
}
use vecti_license.Hal.Posix.State.{
  state_path, file_written, mark_read, posix_hwm_load, posix_hwm_store, posix_blob_load,
  posix_blob_store,
}
use vecti_license.Hal.Posix.Stored.{Keeps, posix_hwm_store_loads, posix_blob_store_loads}
use vecti_license.Hal.Posix.Segments.{
  fgets, after_colon, skip_blanks, copy_value, serial_line, serial_loop,
}
use vecti_license.Hal.Posix.Lines.{Runs, serial_loop_ends}
use mathlib.Core.List.{Memᴰ}
use vecti_license.Base.{replicate}
use vecti_license.Sha256.Digest.{digest}
use vecti_license.Core.Fingerprint.{fp_domain, fingerprint_with}
use vecti_license.Core.Fingerprint.Identity.{encode_segments}
use vecti_license.Core.Fingerprint.Tests.{stack}
use vecti_license.Hal.Posix.Segments.{id_buf_size, read_board_serial, posix_segment}
use vecti_license.Hal.Posix.Identity.{Readable, posix_fingerprint}
use vecti_license.Hal.Posix.Reading.{Failing}

-- Every file reads as the address of an interface.
abbrev names : List (List ℕ)
names = codes "lo" ∷ codes "wlan0" ∷ codes "eth0" ∷ codes "docker0" ∷ []

abbrev machine : Os ℕ
machine = record {
  read_file = λ path w. some (codes "02:42:ac:11:00:02\n");
  list_dir = λ path w. some names;
  write_file = λ path bytes w. (none, w);
  time = λ w. since_epoch 1700000000;
}

picks_wired : pick_iface machine 64 0 ≡ some (codes "eth0")
unfolding pick_iface picked pick_loop is_eligible is_skipped has_mac mac_is_meaningful
    read_iface_mac read_text_file trim_loop better iface_score
picks_wired = refl

pick_iface_best_example :
    ((pick_iface machine 64 0 ≡ none)
      × ((n : List ℕ) → Memᴰ n names → is_eligible machine n 0 ≡ false))
    ⊎ ((n : List ℕ) × Memᴰ n names
        × (is_eligible machine n 0 ≡ true)
        × (pick_iface machine 64 0 ≡ some (take 63 n))
        × ((m : List ℕ)
            → Memᴰ m names
            → is_eligible machine m 0 ≡ true
            → iface_score m ≤ iface_score n))
pick_iface_best_example = pick_iface_best machine names 0 refl

-- One file: whatever the path, the world is the bytes last written.
abbrev disk : Os (List ℕ)
disk = record {
  read_file = λ path w. some w;
  list_dir = λ path w. none;
  write_file = λ path bytes w. (some (length bytes, true), bytes);
  time = λ w. since_epoch 1700000000;
}

disk-Keeps : Keeps disk
disk-Keeps path bytes w w' written = ap (λ (r : Option (ℕ × Bool) × List ℕ). some r.1) (sym written)

abbrev ctx : PosixCtx
ctx = record { iface = []; state = codes "/tmp/state" }

stores_mark : posix_hwm_store disk ctx 1700000000 [] ≡ (ok, le_bytes 1700000000)
unfolding posix_hwm_store state_path file_written le_bytes
stores_mark = refl

-- 0x0A000000 is 1975-04-26; its most significant byte is a newline.
loses_mark : posix_hwm_load disk ctx (le_bytes 0x0A000000) ≡ (platform, 0, le_bytes 0x0A000000)
unfolding posix_hwm_load state_path read_text_file trim_loop mark_read le_bytes
loses_mark = refl

posix_hwm_store_loads_example :
    ((is_trimmed (byte 1700000000 24) ≡ false)
      × (posix_hwm_load disk ctx (le_bytes 1700000000) ≡ (ok, 1700000000, le_bytes 1700000000)))
    ⊎ ((is_trimmed (byte 1700000000 24) ≡ true)
        × (posix_hwm_load disk ctx (le_bytes 1700000000) ≡ (platform, 0, le_bytes 1700000000)))
posix_hwm_store_loads_example =
    posix_hwm_store_loads disk ctx 1700000000 [] (le_bytes 1700000000) disk-Keeps (omega arith)
      stores_mark

posix_fingerprint_example :
    let print =
      fingerprint_with stack
        (some (posix_segment machine (replicate 255 0)))
        (some (replicate 32 0xcc))
        (ctx, 0) in
    ((r : Readable machine ctx 0) × (print ≡ (
      ok,
      some (
          digest (
            fp_domain
            ++ encode_segments (r.mac ∷ r.machine ∷ read_board_serial machine id_buf_size 0 ∷ []))),
      (record ctx { iface = r.iface }, 0),
    )))
    ⊎ (¬ Readable machine ctx 0 × Failing print.0 × (print.1 ≡ some (replicate 32 0)))
posix_fingerprint_example =
    posix_fingerprint machine (replicate 255 0) stack (replicate 32 0xcc) ctx 0 refl refl refl

abbrev short_text : List ℕ
short_text = codes "AR0ZY"

stores_text : posix_blob_store disk ctx short_text [] ≡ (ok, short_text)
unfolding posix_blob_store state_path file_written
stores_text = refl

posix_blob_store_loads_example : posix_blob_load disk ctx 161 short_text ≡ (
    if length short_text == 0
    then (not_found, [], 0, short_text)
    else (ok, short_text ++ 0 ∷ [], length short_text, short_text))
posix_blob_store_loads_example =
    posix_blob_store_loads disk ctx short_text 161 [] short_text disk-Keeps (inr (4, refl, refl))
      (omega arith) (omega arith) stores_text

abbrev cpuinfo : List ℕ
cpuinfo = codes "Model\t: Pi\nSerial\t\t: 00ab\n"

finds_serial : serial_loop 27 256 cpuinfo ≡ codes "00ab"
unfolding serial_loop fgets serial_line after_colon skip_blanks copy_value
finds_serial = refl

serial_loop_ends_example :
    ((n : ℕ) × (n ≤ length cpuinfo) × Runs 256 n cpuinfo (serial_loop 27 256 cpuinfo))
    × ((n : ℕ) (value : List ℕ) → Runs 256 n cpuinfo value → value ≡ serial_loop 27 256 cpuinfo)
serial_loop_ends_example = serial_loop_ends 27 256 cpuinfo (omega arith)
