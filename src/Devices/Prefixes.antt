-- ===== src/Devices/Prefixes.antt =====
-- The prefixes of unyport/backend/sse/device_identity.go: embeddedOUIGroups and virtualOUIs.
use unyport.Common.{String, List, [], ◌∷◌}
use unyport.Common.Dict.{Dict}

pub record OuiGroup : Type 0 where
  pub vendor : String
  pub device_type : String
  pub prefixes : List String

abbrev group : String → String → List String → OuiGroup
group vendor device_type prefixes = record {
  vendor = vendor;
  device_type = device_type;
  prefixes = prefixes;
}

abbrev pub virtual_ouis : Dict String
virtual_ouis =
    ("00:16:3e", "Xen")
    ∷ ("00:05:69", "VMware")
    ∷ ("00:0c:29", "VMware")
    ∷ ("00:1c:14", "VMware")
    ∷ ("00:50:56", "VMware")
    ∷ ("08:00:27", "VirtualBox")
    ∷ ("52:54:00", "QEMU/KVM")
    ∷ ("00:15:5d", "Microsoft Hyper-V")
    ∷ ("00:1c:42", "Parallels")
    ∷ []

abbrev pub embedded_oui_groups : List OuiGroup
embedded_oui_groups =
    group "Raspberry Pi Foundation" "raspberry_pi"
      ("b8:27:eb" ∷ "dc:a6:32" ∷ "e4:5f:01" ∷ "2c:cf:67" ∷ "d8:3a:dd" ∷ "28:cd:c1" ∷ [])
    ∷ group "Espressif" "esp32_board" (
        "24:0a:c4" ∷ "24:6f:28" ∷ "30:ae:a4" ∷ "3c:61:05" ∷ "3c:71:bf" ∷ "40:91:51" ∷ "44:17:93"
        ∷ "48:27:e2" ∷ "4c:11:ae" ∷ "54:5a:a6" ∷ "5c:cf:7f" ∷ "60:01:94" ∷ "68:c6:3a" ∷ "7c:9e:bd"
        ∷ "7c:df:a1" ∷ "84:0d:8e" ∷ "84:cc:a8" ∷ "84:f3:eb" ∷ "8c:aa:b5" ∷ "90:38:0c" ∷ "94:b5:55"
        ∷ "a0:20:a6" ∷ "a4:cf:12" ∷ "ac:67:b2" ∷ "b4:e6:2d" ∷ "bc:dd:c2" ∷ "c4:4f:33" ∷ "cc:50:e3"
        ∷ "d8:a0:1d" ∷ "d8:bf:c0" ∷ "dc:4f:22" ∷ "e8:68:e7" ∷ "e8:db:84" ∷ "ec:fa:bc" ∷ "f0:08:d1"
        ∷ "f4:cf:a2" ∷ "fc:f5:c4" ∷ [])
    ∷ group "Arduino" "arduino_board" ("90:a2:da" ∷ "60:45:bd" ∷ "74:c2:46" ∷ "a8:61:0a" ∷ [])
    ∷ group "Hikvision" "camera" ("44:19:b6" ∷ "bc:ad:28" ∷ "4c:bd:8f" ∷ "a4:14:37" ∷ [])
    ∷ group "Dahua" "camera" ("3c:ef:8c" ∷ "90:02:a9" ∷ "e0:50:8b" ∷ [])
    ∷ group "Axis Communications" "camera" ("00:40:8c" ∷ [])
    ∷ group "Wyze" "camera" ("2c:aa:8e" ∷ "7c:78:b2" ∷ [])
    ∷ group "Sonos" "smart_speaker"
        ("00:0e:58" ∷ "5c:aa:fd" ∷ "78:28:ca" ∷ "94:9f:3e" ∷ "b8:e9:37" ∷ [])
    ∷ group "Signify (Philips Hue)" "smart_bulb" ("00:17:88" ∷ [])
    ∷ group "Roku" "streaming_player" ("b0:a7:37" ∷ "cc:6d:a0" ∷ "dc:3a:5e" ∷ [])
    ∷ group "Synology" "nas" ("00:11:32" ∷ "90:09:d0" ∷ [])
    ∷ group "QNAP" "nas" ("24:5e:be" ∷ "00:08:9b" ∷ [])
    ∷ group "Western Digital" "nas" ("00:90:a9" ∷ "00:14:ee" ∷ [])
    ∷ group "Brother Industries" "printer" ("00:80:77" ∷ "30:05:5c" ∷ [])
    ∷ group "Seiko Epson" "printer" ("00:00:48" ∷ "38:9d:92" ∷ [])
    ∷ group "Lexmark" "printer" ("00:04:00" ∷ "00:21:b7" ∷ [])
    ∷ group "Zebra Technologies" "printer" ("00:07:4d" ∷ [])
    ∷ group "MikroTik" "router"
        ("4c:5e:0c" ∷ "6c:3b:6b" ∷ "2c:c8:1b" ∷ "74:4d:28" ∷ "18:fd:74" ∷ [])
    ∷ group "Aruba Networks" "accesspoint" ("00:0b:86" ∷ "24:de:c6" ∷ [])
    ∷ group "Ruckus Wireless" "accesspoint" ("24:c9:a1" ∷ "c4:01:7c" ∷ [])
    ∷ group "Fortinet" "firewall" ("00:09:0f" ∷ "70:4c:a5" ∷ [])
    ∷ group "Sophos" "firewall" ("00:1a:8c" ∷ [])
    ∷ group "Supermicro" "server" ("00:25:90" ∷ "3c:ec:ef" ∷ "ac:1f:6b" ∷ [])
    ∷ group "Tuya Smart" "iot" ("18:69:d8" ∷ "50:02:91" ∷ "68:57:2d" ∷ [])
    ∷ group "TP-Link" "" (
        "00:1d:0f" ∷ "14:cc:20" ∷ "30:b5:c2" ∷ "50:c7:bf" ∷ "54:c8:0f" ∷ "60:32:b1" ∷ "a4:2b:b0"
        ∷ "ac:84:c6" ∷ "c0:06:c3" ∷ "c4:6e:1f" ∷ "ec:08:6b" ∷ "f4:f2:6d" ∷ [])
    ∷ group "Ubiquiti" "" (
        "04:18:d6" ∷ "24:a4:3c" ∷ "44:d9:e7" ∷ "68:d7:9a" ∷ "74:ac:b9" ∷ "78:45:58" ∷ "80:2a:a8"
        ∷ "b4:fb:e4" ∷ "dc:9f:db" ∷ "f0:9f:c2" ∷ [])
    ∷ group "Apple" "" ("00:03:93" ∷ "3c:22:fb" ∷ "a4:83:e7" ∷ "d0:81:7a" ∷ "f0:18:98" ∷ [])
    ∷ group "Samsung Electronics" ""
        ("00:12:fb" ∷ "34:23:ba" ∷ "5c:0a:5b" ∷ "78:1f:db" ∷ "8c:77:12" ∷ "e4:7c:f9" ∷ [])
    ∷ group "LG Electronics" "" ("00:1c:62" ∷ "2c:54:cf" ∷ "58:a2:b5" ∷ "a8:16:b2" ∷ [])
    ∷ group "Amazon Technologies" "" ("44:65:0d" ∷ "68:37:e9" ∷ "74:c2:46" ∷ "f0:27:2d" ∷ [])
    ∷ group "Google" "" ("3c:5a:b4" ∷ "54:60:09" ∷ "f4:f5:d8" ∷ [])
    ∷ group "NETGEAR" "" ("20:4e:7f" ∷ "a0:40:a0" ∷ "00:14:6c" ∷ [])
    ∷ group "Cisco Systems" "" ("00:00:0c" ∷ "00:1b:0c" ∷ "00:1e:13" ∷ [])
    ∷ group "Dell" "" ("00:14:22" ∷ "b8:2a:72" ∷ "f8:bc:12" ∷ [])
    ∷ group "Hewlett Packard" "" ("00:1e:0b" ∷ "3c:d9:2b" ∷ "9c:b6:54" ∷ [])
    ∷ group "Intel Corporate" "" ("00:1b:21" ∷ "3c:97:0e" ∷ "7c:5c:f8" ∷ [])
    ∷ []
