-- ===== src/Ethernet/Tests.antt =====
-- The network driver at concrete values.
use valiant_core.Base.{ℕ, ◌≡◌, refl, [], ◌∷◌, ◌==◌, if◌then◌else◌, find_first}
use valiant_core.Ports.{History, Hardware, in16, in32, out32}
use valiant_core.Ethernet.{
  Rtl, Ram, rtl_find_device, rtl8111_init, rtl8111_send, find_from, find_on_bus, pci_read32,
  pci_write32, is_rtl, take_device, config_address, rtl8111_receive,
}
use valiant_core.Ethernet.Scan.{
  Finds, is_rtl_at, config_written, rtl_find_device-Finds, register_at,
}
use valiant_core.Ethernet.Init.{Inits, rtl8111_init-Inits}
use valiant_core.Ethernet.Send.{Sends, rtl8111_send-Sends}
use valiant_core.Ethernet.Receive.{Receives, rtl8111_receive-Receives}
use valiant_core.Ethernet.Calls.{rtl_start}

-- A card in slot 3 of bus 0 with its registers from 0xC000 on.
unfoldable config : ℕ → ℕ
config a =
    if a == register_at 3 0
    then 0x816810EC
    else (if a == register_at 3 0x10 then 0xC001 else 0xFFFFFFFF)

-- What it answers: packets are there and are sent at once, at the place 16.
unfoldable card : Hardware
card (in32 p ∷ out32 q a ∷ h) = if p == 0xCFC then config a else 0x8000
card (in16 p ∷ h) = if p == 0xC038 then 16 else 1
card (in32 p ∷ h) = 0x8000
card _ = 0

config_lem : (a : ℕ) (h : History) → card (in32 0xCFC ∷ out32 0xCF8 a ∷ h) ≡ config a
unfolding card
config_lem a h = refl

abbrev ready : Rtl
ready = record rtl_start { rtl_base = 0xC000; cable_status = 1 }

-- A packet of 4 bytes behind its header.
unfoldable ram : Ram
ram h offset = if offset == 18 then 4 else (if offset == 19 then 0 else offset)

is_found : (rtl_find_device card []).0 ≡ 0xC000
unfolding card config rtl_find_device find_from find_on_bus pci_read32 pci_write32 is_rtl
    take_device config_address
is_found = refl

rtl_find_device-Finds_example :
    Finds card config config_lem
      (find_first 8192 0 (is_rtl_at card config config_lem))
      (rtl_find_device card [])
      (config_written [])
rtl_find_device-Finds_example = rtl_find_device-Finds card config config_lem []

rtl8111_init-Inits_example :
    Inits card 0x200000 rtl_start [] (rtl8111_init card 0x200000 rtl_start [])
rtl8111_init-Inits_example = rtl8111_init-Inits card 0x200000 rtl_start []

rtl8111_send-Sends_example :
    Sends card 0x300000 ready (λ i. i) 60 [] (rtl8111_send card 0x300000 ready (λ i. i) 60 [])
rtl8111_send-Sends_example = rtl8111_send-Sends card 0x300000 ready (λ i. i) 60 []

rtl8111_receive-Receives_example :
    Receives card ram ready (λ i. 0) 0 [] (rtl8111_receive card ram ready (λ i. 0) 0 [])
rtl8111_receive-Receives_example = rtl8111_receive-Receives card ram ready (λ i. 0) 0 []
