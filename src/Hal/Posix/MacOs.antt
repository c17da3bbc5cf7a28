-- ===== src/Hal/Posix/MacOs.antt =====
-- hal/posix/vl_hal_posix.c on macOS, built with IOKit: the address of an interface, the platform's UUID,
-- and read_id_segment. `MacOs` is what getifaddrs and IOKit answer; the rest is that of Hal/Posix.
pub mod Interfaces
pub mod Identity
mod Tests
use vecti_license.Base.{
  ℕ, zero, suc, ◌+◌, ◌/◌, ◌%◌, ◌==◌, ◌!=◌, ◌&&◌, ltb, if◌then◌else◌, Bool, true, false, Option,
  none, some, List, [], ◌∷◌, ◌++◌, length,
}
use vecti_license.Base.Text.{codes, same_text, starts_with}
use vecti_license.Api.{no_more_segments, Segment, Hal}
use vecti_license.Hal.{or_all}
use vecti_license.Hal.Posix.{Os, PosixCtx}
use vecti_license.Hal.Posix.Segments.{id_buf_size, segment_out, posix_hal}

-- An entry of getifaddrs: ifa_name, and the bytes at LLADDR where the address is not NULL and of the
-- family AF_LINK
pub record Interface : Type 0 where
  pub name : List ℕ
  pub link : Option (List ℕ)

-- IORegistryEntryCreateCFProperty(svc, kIOPlatformUUIDKey): `text` is a CFString, given by what
-- CFStringGetCString makes of it in a buffer of a capacity.
pub data Property : Type 0 where
  no_service no_property other_type : Property
  text : (ℕ → Option (List ℕ)) → Property

pub record MacOs (W : Type 0) : Type 0 where
  -- `none` where getifaddrs fails
  pub interfaces : W → Option (List Interface)
  pub platform_uuid : W → Property

-- "%02x" of a byte
abbrev pub hex_digit : ℕ → ℕ
hex_digit n = if ltb n 10 then 48 + n else 87 + n

abbrev pub hex_byte : ℕ → List ℕ
hex_byte b = hex_digit (b / 16 % 16) ∷ hex_digit (b % 16) ∷ []

-- "%02x:%02x:%02x:%02x:%02x:%02x" of the bytes
unfoldable pub colons : List ℕ → List ℕ
colons [] = []
colons (b ∷ []) = hex_byte b
colons (b ∷ c ∷ m) = hex_byte b ++ b':' ∷ colons (c ∷ m)

-- The test of the name: `iface` is `none` for NULL.
unfoldable pub is_named : Option (List ℕ) → List ℕ → Bool
is_named none name = starts_with (codes "en") name
is_named (some iface) name = same_text name iface

-- The tests of the address, and the text of the first that passes them
unfoldable pub link_text : Option (List ℕ) → Option (List ℕ)
link_text none = none
link_text (some m) =
    if length m != 6
    then none
    else if or_all m 0 == 0
    then none
    else if length (colons m) != 17
    then none
    else some (colons m)

unfoldable pub entry_text : Option (List ℕ) → Interface → Option (List ℕ)
entry_text iface p = if is_named iface p.name then link_text p.link else none

-- The loop of read_iface_mac
unfoldable pub interface_loop : Option (List ℕ) → List Interface → Option (List ℕ)
interface_loop iface [] = none
interface_loop iface (p ∷ rest) =
    let later = interface_loop iface rest in
    elim (entry_text iface p) [ none ↦ later | some mac ↦ some mac ]

-- c->iface[0] != '\0' ? c->iface : NULL
unfoldable pub asked_iface : List ℕ → Option (List ℕ)
asked_iface [] = none
asked_iface (c ∷ iface) = some (c ∷ iface)

-- CFStringGetCString and strlen, `none` for -1
unfoldable pub uuid_text : Option (List ℕ) → Option (List ℕ)
uuid_text none = none
uuid_text (some uuid) = if ltb 0 (length uuid) then some uuid else none

unfoldable pub property_text : ℕ → Property → Option (List ℕ)
property_text cap no_service = none
property_text cap no_property = none
property_text cap other_type = none
property_text cap (text get) = uuid_text (get cap)

unfoldable pub found_in : Option (List ℕ) → Option (List Interface) → Option (List ℕ)
found_in iface none = none
found_in iface (some entries) = interface_loop iface entries

module _ {W : Type 0} (mac_os : MacOs W) where
  -- read_iface_mac, `none` for -1
  unfoldable pub interface_mac : Option (List ℕ) → ℕ → W → Option (List ℕ)
  interface_mac iface cap w = if ltb cap 18 then none else found_in iface (mac_os.interfaces w)

  -- read_platform_uuid, `none` for -1
  unfoldable pub read_platform_uuid : ℕ → W → Option (List ℕ)
  read_platform_uuid cap w = property_text cap (mac_os.platform_uuid w)

  -- read_id_segment; `before` is the caller's buffer.
  unfoldable pub mac_os_segment : List ℕ → ℕ → ℕ → PosixCtx × W → Segment × (PosixCtx × W)
  mac_os_segment before zero cap (c, w) =
      (segment_out cap before (interface_mac (asked_iface c.iface) id_buf_size w), (c, w))
  mac_os_segment before (suc zero) cap (c, w) =
      (segment_out cap before (read_platform_uuid id_buf_size w), (c, w))
  mac_os_segment before idx cap (c, w) =
      (record { status = no_more_segments; bytes = before; len = 0 }, (c, w))

  -- g_hal, with the callbacks that both systems share
  abbrev pub mac_os_hal : Os W → List ℕ → Hal (PosixCtx × W)
  mac_os_hal os before = record (posix_hal os before) {
    read_id_segment = some (mac_os_segment before);
  }
