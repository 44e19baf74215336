-- ===== src/Terminal/CharMappings.antt =====
-- guacamole/src/protocols/ssh/terminal_char_mappings.c: the character sets of the terminal.
use occamy.Base.{ℕ, List, [], ◌∷◌}

abbrev pub vt100_map : List ℕ
vt100_map =
    0x20 ∷ 0x21 ∷ 0x22 ∷ 0x23 ∷ 0x24 ∷ 0x25 ∷ 0x26 ∷ 0x27 ∷ 0x28 ∷ 0x29 ∷ 0x2A ∷ 0x2B ∷ 0x2C ∷ 0x2D
    ∷ 0x2E ∷ 0x2F ∷ 0x30 ∷ 0x31 ∷ 0x32 ∷ 0x33 ∷ 0x34 ∷ 0x35 ∷ 0x36 ∷ 0x37 ∷ 0x38 ∷ 0x39 ∷ 0x3A
    ∷ 0x3B ∷ 0x3C ∷ 0x3D ∷ 0x3E ∷ 0x3F ∷ 0x40 ∷ 0x41 ∷ 0x42 ∷ 0x43 ∷ 0x44 ∷ 0x45 ∷ 0x46 ∷ 0x47
    ∷ 0x48 ∷ 0x49 ∷ 0x4A ∷ 0x4B ∷ 0x4C ∷ 0x4D ∷ 0x4E ∷ 0x4F ∷ 0x50 ∷ 0x51 ∷ 0x52 ∷ 0x53 ∷ 0x54
    ∷ 0x55 ∷ 0x56 ∷ 0x57 ∷ 0x58 ∷ 0x59 ∷ 0x5A ∷ 0x5B ∷ 0x5C ∷ 0x5D ∷ 0x5E ∷ 0x5F ∷ 0x25C6 ∷ 0x2592
    ∷ 0x2409 ∷ 0x240C ∷ 0x240D ∷ 0x240A ∷ 0xB0 ∷ 0xB1 ∷ 0x2424 ∷ 0x240B ∷ 0x2518 ∷ 0x2510 ∷ 0x250C
    ∷ 0x2514 ∷ 0x253C ∷ 0x23BA ∷ 0x23BB ∷ 0x2500 ∷ 0x23BC ∷ 0x23BD ∷ 0x251C ∷ 0x2524 ∷ 0x2534
    ∷ 0x252C ∷ 0x2502 ∷ 0x2264 ∷ 0x2265 ∷ 0x03C0 ∷ 0x2260 ∷ 0xA3 ∷ 0xB7 ∷ 0x7F ∷ 0x80 ∷ 0x81 ∷ 0x82
    ∷ 0x83 ∷ 0x84 ∷ 0x85 ∷ 0x86 ∷ 0x87 ∷ 0x88 ∷ 0x89 ∷ 0x8A ∷ 0x8B ∷ 0x8C ∷ 0x8D ∷ 0x8E ∷ 0x8F
    ∷ 0x90 ∷ 0x91 ∷ 0x92 ∷ 0x93 ∷ 0x94 ∷ 0x95 ∷ 0x96 ∷ 0x97 ∷ 0x98 ∷ 0x99 ∷ 0x9A ∷ 0x9B ∷ 0x9C
    ∷ 0x9D ∷ 0x9E ∷ 0x9F ∷ 0xA0 ∷ 0xA1 ∷ 0xA2 ∷ 0xA3 ∷ 0xA4 ∷ 0xA5 ∷ 0xA6 ∷ 0xA7 ∷ 0xA8 ∷ 0xA9
    ∷ 0xAA ∷ 0xAB ∷ 0xAC ∷ 0xAD ∷ 0xAE ∷ 0xAF ∷ 0xB0 ∷ 0xB1 ∷ 0xB2 ∷ 0xB3 ∷ 0xB4 ∷ 0xB5 ∷ 0xB6
    ∷ 0xB7 ∷ 0xB8 ∷ 0xB9 ∷ 0xBA ∷ 0xBB ∷ 0xBC ∷ 0xBD ∷ 0xBE ∷ 0xBF ∷ 0xC0 ∷ 0xC1 ∷ 0xC2 ∷ 0xC3
    ∷ 0xC4 ∷ 0xC5 ∷ 0xC6 ∷ 0xC7 ∷ 0xC8 ∷ 0xC9 ∷ 0xCA ∷ 0xCB ∷ 0xCC ∷ 0xCD ∷ 0xCE ∷ 0xCF ∷ 0xD0
    ∷ 0xD1 ∷ 0xD2 ∷ 0xD3 ∷ 0xD4 ∷ 0xD5 ∷ 0xD6 ∷ 0xD7 ∷ 0xD8 ∷ 0xD9 ∷ 0xDA ∷ 0xDB ∷ 0xDC ∷ 0xDD
    ∷ 0xDE ∷ 0xDF ∷ 0xE0 ∷ 0xE1 ∷ 0xE2 ∷ 0xE3 ∷ 0xE4 ∷ 0xE5 ∷ 0xE6 ∷ 0xE7 ∷ 0xE8 ∷ 0xE9 ∷ 0xEA
    ∷ 0xEB ∷ 0xEC ∷ 0xED ∷ 0xEE ∷ 0xEF ∷ 0xF0 ∷ 0xF1 ∷ 0xF2 ∷ 0xF3 ∷ 0xF4 ∷ 0xF5 ∷ 0xF6 ∷ 0xF7
    ∷ 0xF8 ∷ 0xF9 ∷ 0xFA ∷ 0xFB ∷ 0xFC ∷ 0xFD ∷ 0xFE ∷ 0xFF ∷ []

abbrev pub null_map : List ℕ
null_map =
    0x20 ∷ 0x21 ∷ 0x22 ∷ 0x23 ∷ 0x24 ∷ 0x25 ∷ 0x26 ∷ 0x27 ∷ 0x28 ∷ 0x29 ∷ 0x2A ∷ 0x2B ∷ 0x2C ∷ 0x2D
    ∷ 0x2E ∷ 0x2F ∷ 0x30 ∷ 0x31 ∷ 0x32 ∷ 0x33 ∷ 0x34 ∷ 0x35 ∷ 0x36 ∷ 0x37 ∷ 0x38 ∷ 0x39 ∷ 0x3A
    ∷ 0x3B ∷ 0x3C ∷ 0x3D ∷ 0x3E ∷ 0x3F ∷ 0x40 ∷ 0x41 ∷ 0x42 ∷ 0x43 ∷ 0x44 ∷ 0x45 ∷ 0x46 ∷ 0x47
    ∷ 0x48 ∷ 0x49 ∷ 0x4A ∷ 0x4B ∷ 0x4C ∷ 0x4D ∷ 0x4E ∷ 0x4F ∷ 0x50 ∷ 0x51 ∷ 0x52 ∷ 0x53 ∷ 0x54
    ∷ 0x55 ∷ 0x56 ∷ 0x57 ∷ 0x58 ∷ 0x59 ∷ 0x5A ∷ 0x5B ∷ 0x5C ∷ 0x5D ∷ 0x5E ∷ 0x5F ∷ 0x60 ∷ 0x61
    ∷ 0x62 ∷ 0x63 ∷ 0x64 ∷ 0x65 ∷ 0x66 ∷ 0x67 ∷ 0x68 ∷ 0x69 ∷ 0x6A ∷ 0x6B ∷ 0x6C ∷ 0x6D ∷ 0x6E
    ∷ 0x6F ∷ 0x70 ∷ 0x71 ∷ 0x72 ∷ 0x73 ∷ 0x74 ∷ 0x75 ∷ 0x76 ∷ 0x77 ∷ 0x78 ∷ 0x79 ∷ 0x7A ∷ 0x7B
    ∷ 0x7C ∷ 0x7D ∷ 0x7E ∷ 0x7F ∷ 0xC7 ∷ 0xFC ∷ 0xE9 ∷ 0xE2 ∷ 0xE4 ∷ 0xE0 ∷ 0xE5 ∷ 0xE7 ∷ 0xEA
    ∷ 0xEB ∷ 0xE8 ∷ 0xEF ∷ 0xEE ∷ 0xEC ∷ 0xC4 ∷ 0xC5 ∷ 0xC9 ∷ 0xE6 ∷ 0xC6 ∷ 0xF4 ∷ 0xF6 ∷ 0xF2
    ∷ 0xFB ∷ 0xF9 ∷ 0xFF ∷ 0xD6 ∷ 0xDC ∷ 0xA2 ∷ 0xA3 ∷ 0xA5 ∷ 0x20A7 ∷ 0x0192 ∷ 0xE1 ∷ 0xED ∷ 0xF3
    ∷ 0xFA ∷ 0xF1 ∷ 0xD1 ∷ 0xAA ∷ 0xBA ∷ 0xBF ∷ 0x2310 ∷ 0xAC ∷ 0xBD ∷ 0xBC ∷ 0xA1 ∷ 0xAB ∷ 0xBB
    ∷ 0x2591 ∷ 0x2592 ∷ 0x2593 ∷ 0x2502 ∷ 0x2524 ∷ 0x2561 ∷ 0x2562 ∷ 0x2556 ∷ 0x2555 ∷ 0x2563
    ∷ 0x2551 ∷ 0x2557 ∷ 0x255D ∷ 0x255C ∷ 0x255B ∷ 0x2510 ∷ 0x2514 ∷ 0x2534 ∷ 0x252C ∷ 0x251C
    ∷ 0x2500 ∷ 0x253C ∷ 0x255E ∷ 0x255F ∷ 0x255A ∷ 0x2554 ∷ 0x2569 ∷ 0x2566 ∷ 0x2560 ∷ 0x2550
    ∷ 0x256C ∷ 0x2567 ∷ 0x2568 ∷ 0x2564 ∷ 0x2565 ∷ 0x2559 ∷ 0x2558 ∷ 0x2552 ∷ 0x2553 ∷ 0x256B
    ∷ 0x256A ∷ 0x2518 ∷ 0x250C ∷ 0x2588 ∷ 0x2584 ∷ 0x258C ∷ 0x2590 ∷ 0x2580 ∷ 0x03B1 ∷ 0xDF ∷ 0x0393
    ∷ 0x03C0 ∷ 0x03A3 ∷ 0x03C3 ∷ 0xB5 ∷ 0x03C4 ∷ 0x03A6 ∷ 0x0398 ∷ 0x03A9 ∷ 0x03B4 ∷ 0x221E ∷ 0x03C6
    ∷ 0x03B5 ∷ 0x2229 ∷ 0x2261 ∷ 0xB1 ∷ 0x2265 ∷ 0x2264 ∷ 0x2320 ∷ 0x2321 ∷ 0xF7 ∷ 0x2248 ∷ 0xB0
    ∷ 0x2219 ∷ 0xB7 ∷ 0x221A ∷ 0x207F ∷ 0xB2 ∷ 0x25A0 ∷ 0x0A ∷ []

abbrev pub user_map : List ℕ
user_map =
    0x20 ∷ 0x21 ∷ 0x22 ∷ 0x23 ∷ 0x24 ∷ 0x25 ∷ 0x26 ∷ 0x27 ∷ 0x28 ∷ 0x29 ∷ 0x2A ∷ 0x2B ∷ 0x2C ∷ 0x2D
    ∷ 0x2E ∷ 0x2F ∷ 0x30 ∷ 0x31 ∷ 0x32 ∷ 0x33 ∷ 0x34 ∷ 0x35 ∷ 0x36 ∷ 0x37 ∷ 0x38 ∷ 0x39 ∷ 0x3A
    ∷ 0x3B ∷ 0x3C ∷ 0x3D ∷ 0x3E ∷ 0x3F ∷ 0xA7 ∷ 0x41 ∷ 0x42 ∷ 0x43 ∷ 0x44 ∷ 0x45 ∷ 0x46 ∷ 0x47
    ∷ 0x48 ∷ 0x49 ∷ 0x4A ∷ 0x4B ∷ 0x4C ∷ 0x4D ∷ 0x4E ∷ 0x4F ∷ 0x50 ∷ 0x51 ∷ 0x52 ∷ 0x53 ∷ 0x54
    ∷ 0x55 ∷ 0x56 ∷ 0x57 ∷ 0x58 ∷ 0x59 ∷ 0x5A ∷ 0xC4 ∷ 0xD6 ∷ 0xDC ∷ 0x5E ∷ 0x5F ∷ 0x60 ∷ 0x61
    ∷ 0x62 ∷ 0x63 ∷ 0x64 ∷ 0x65 ∷ 0x66 ∷ 0x67 ∷ 0x68 ∷ 0x69 ∷ 0x6A ∷ 0x6B ∷ 0x6C ∷ 0x6D ∷ 0x6E
    ∷ 0x6F ∷ 0x70 ∷ 0x71 ∷ 0x72 ∷ 0x73 ∷ 0x74 ∷ 0x75 ∷ 0x76 ∷ 0x77 ∷ 0x78 ∷ 0x79 ∷ 0x7A ∷ 0xE4
    ∷ 0xF6 ∷ 0xFC ∷ 0xDF ∷ 0x7F ∷ 0x80 ∷ 0x81 ∷ 0x82 ∷ 0x83 ∷ 0x84 ∷ 0x85 ∷ 0x86 ∷ 0x87 ∷ 0x88
    ∷ 0x89 ∷ 0x8A ∷ 0x8B ∷ 0x8C ∷ 0x8D ∷ 0x8E ∷ 0x8F ∷ 0x90 ∷ 0x91 ∷ 0x92 ∷ 0x93 ∷ 0x94 ∷ 0x95
    ∷ 0x96 ∷ 0x97 ∷ 0x98 ∷ 0x99 ∷ 0x9A ∷ 0x9B ∷ 0x9C ∷ 0x9D ∷ 0x9E ∷ 0x9F ∷ 0xA0 ∷ 0xA1 ∷ 0xA2
    ∷ 0xA3 ∷ 0xA4 ∷ 0xA5 ∷ 0xA6 ∷ 0xA7 ∷ 0xA8 ∷ 0xA9 ∷ 0xAA ∷ 0xAB ∷ 0xAC ∷ 0xAD ∷ 0xAE ∷ 0xAF
    ∷ 0xB0 ∷ 0xB1 ∷ 0xB2 ∷ 0xB3 ∷ 0xB4 ∷ 0xB5 ∷ 0xB6 ∷ 0xB7 ∷ 0xB8 ∷ 0xB9 ∷ 0xBA ∷ 0xBB ∷ 0xBC
    ∷ 0xBD ∷ 0xBE ∷ 0xBF ∷ 0xC0 ∷ 0xC1 ∷ 0xC2 ∷ 0xC3 ∷ 0xC4 ∷ 0xC5 ∷ 0xC6 ∷ 0xC7 ∷ 0xC8 ∷ 0xC9
    ∷ 0xCA ∷ 0xCB ∷ 0xCC ∷ 0xCD ∷ 0xCE ∷ 0xCF ∷ 0xD0 ∷ 0xD1 ∷ 0xD2 ∷ 0xD3 ∷ 0xD4 ∷ 0xD5 ∷ 0xD6
    ∷ 0xD7 ∷ 0xD8 ∷ 0xD9 ∷ 0xDA ∷ 0xDB ∷ 0xDC ∷ 0xDD ∷ 0xDE ∷ 0xDF ∷ 0xE0 ∷ 0xE1 ∷ 0xE2 ∷ 0xE3
    ∷ 0xE4 ∷ 0xE5 ∷ 0xE6 ∷ 0xE7 ∷ 0xE8 ∷ 0xE9 ∷ 0xEA ∷ 0xEB ∷ 0xEC ∷ 0xED ∷ 0xEE ∷ 0xEF ∷ 0xF0
    ∷ 0xF1 ∷ 0xF2 ∷ 0xF3 ∷ 0xF4 ∷ 0xF5 ∷ 0xF6 ∷ 0xF7 ∷ 0xF8 ∷ 0xF9 ∷ 0xFA ∷ 0xFB ∷ 0xFC ∷ 0xFD
    ∷ 0xFE ∷ 0xFF ∷ []
