-- ===== src/Ide/Tests.antt =====
-- A small disk of the ATA standard: every sector has the words 0 to 255, and the status always shows a ready drive.
use magnos.Base.{ℕ, ◌%◌, ◌==◌, if◌then◌else◌}
use magnos.Ports.{Device}
use magnos.Ide.{data_port, status_port}
use magnos.Ide.Drive.{drive_of}

abbrev small_content : ℕ → ℕ → ℕ → ℕ
small_content unit lba i = i

abbrev small_device : Device
small_device h port =
    if port == status_port then 0x48 else if port == data_port then (drive_of h).given % 256 else 0
