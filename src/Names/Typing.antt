-- ===== src/Names/Typing.antt =====
-- names.c, `names_init`: from KEY_ESC on, in the order of the source.
use keytap.Base.{List, [], ◌∷◌}
use keytap.Names.Tables.{Entry, key}

unfoldable pub typing_keys : List Entry
typing_keys =
    key "KEY_ESC" 1
    ∷ key "KEY_1" 2
    ∷ key "KEY_2" 3
    ∷ key "KEY_3" 4
    ∷ key "KEY_4" 5
    ∷ key "KEY_5" 6
    ∷ key "KEY_6" 7
    ∷ key "KEY_7" 8
    ∷ key "KEY_8" 9
    ∷ key "KEY_9" 10
    ∷ key "KEY_0" 11
    ∷ key "KEY_MINUS" 12
    ∷ key "KEY_EQUAL" 13
    ∷ key "KEY_BACKSPACE" 14
    ∷ key "KEY_TAB" 15
    ∷ key "KEY_Q" 16
    ∷ key "KEY_W" 17
    ∷ key "KEY_E" 18
    ∷ key "KEY_R" 19
    ∷ key "KEY_T" 20
    ∷ key "KEY_Y" 21
    ∷ key "KEY_U" 22
    ∷ key "KEY_I" 23
    ∷ key "KEY_O" 24
    ∷ key "KEY_P" 25
    ∷ key "KEY_LEFTBRACE" 26
    ∷ key "KEY_RIGHTBRACE" 27
    ∷ key "KEY_ENTER" 28
    ∷ key "KEY_LEFTCTRL" 29
    ∷ key "KEY_A" 30
    ∷ key "KEY_S" 31
    ∷ key "KEY_D" 32
    ∷ key "KEY_F" 33
    ∷ key "KEY_G" 34
    ∷ key "KEY_H" 35
    ∷ key "KEY_J" 36
    ∷ key "KEY_K" 37
    ∷ key "KEY_L" 38
    ∷ key "KEY_SEMICOLON" 39
    ∷ key "KEY_APOSTROPHE" 40
    ∷ key "KEY_GRAVE" 41
    ∷ key "KEY_LEFTSHIFT" 42
    ∷ key "KEY_BACKSLASH" 43
    ∷ key "KEY_Z" 44
    ∷ key "KEY_X" 45
    ∷ key "KEY_C" 46
    ∷ key "KEY_V" 47
    ∷ key "KEY_B" 48
    ∷ key "KEY_N" 49
    ∷ key "KEY_M" 50
    ∷ key "KEY_COMMA" 51
    ∷ key "KEY_DOT" 52
    ∷ key "KEY_SLASH" 53
    ∷ key "KEY_RIGHTSHIFT" 54
    ∷ key "KEY_KPASTERISK" 55
    ∷ key "KEY_LEFTALT" 56
    ∷ key "KEY_SPACE" 57
    ∷ key "KEY_CAPSLOCK" 58
    ∷ key "KEY_F1" 59
    ∷ key "KEY_F2" 60
    ∷ key "KEY_F3" 61
    ∷ key "KEY_F4" 62
    ∷ key "KEY_F5" 63
    ∷ key "KEY_F6" 64
    ∷ key "KEY_F7" 65
    ∷ key "KEY_F8" 66
    ∷ key "KEY_F9" 67
    ∷ key "KEY_F10" 68
    ∷ key "KEY_NUMLOCK" 69
    ∷ key "KEY_SCROLLLOCK" 70
    ∷ key "KEY_KP7" 71
    ∷ key "KEY_KP8" 72
    ∷ key "KEY_KP9" 73
    ∷ key "KEY_KPMINUS" 74
    ∷ key "KEY_KP4" 75
    ∷ key "KEY_KP5" 76
    ∷ key "KEY_KP6" 77
    ∷ key "KEY_KPPLUS" 78
    ∷ key "KEY_KP1" 79
    ∷ key "KEY_KP2" 80
    ∷ key "KEY_KP3" 81
    ∷ key "KEY_KP0" 82
    ∷ key "KEY_KPDOT" 83
    ∷ key "KEY_ZENKAKUHANKAKU" 85
    ∷ key "KEY_102ND" 86
    ∷ key "KEY_F11" 87
    ∷ key "KEY_F12" 88
    ∷ key "KEY_RO" 89
    ∷ key "KEY_KATAKANA" 90
    ∷ key "KEY_HIRAGANA" 91
    ∷ key "KEY_HENKAN" 92
    ∷ key "KEY_KATAKANAHIRAGANA" 93
    ∷ key "KEY_MUHENKAN" 94
    ∷ key "KEY_KPJPCOMMA" 95
    ∷ key "KEY_KPENTER" 96
    ∷ key "KEY_RIGHTCTRL" 97
    ∷ key "KEY_KPSLASH" 98
    ∷ key "KEY_SYSRQ" 99
    ∷ key "KEY_RIGHTALT" 100
    ∷ key "KEY_LINEFEED" 101
    ∷ key "KEY_HOME" 102
    ∷ key "KEY_UP" 103
    ∷ key "KEY_PAGEUP" 104
    ∷ key "KEY_LEFT" 105
    ∷ key "KEY_RIGHT" 106
    ∷ key "KEY_END" 107
    ∷ key "KEY_DOWN" 108
    ∷ key "KEY_PAGEDOWN" 109
    ∷ key "KEY_INSERT" 110
    ∷ key "KEY_DELETE" 111
    ∷ key "KEY_MACRO" 112
    ∷ key "KEY_MUTE" 113
    ∷ key "KEY_VOLUMEDOWN" 114
    ∷ key "KEY_VOLUMEUP" 115
    ∷ key "KEY_POWER" 116
    ∷ key "KEY_KPEQUAL" 117
    ∷ key "KEY_KPPLUSMINUS" 118
    ∷ key "KEY_PAUSE" 119
    ∷ key "KEY_SCALE" 120
    ∷ key "KEY_KPCOMMA" 121
    ∷ key "KEY_HANGEUL" 122
    ∷ key "KEY_HANJA" 123
    ∷ key "KEY_YEN" 124
    ∷ key "KEY_LEFTMETA" 125
    ∷ key "KEY_RIGHTMETA" 126
    ∷ key "KEY_COMPOSE" 127
    ∷ key "KEY_STOP" 128
    ∷ key "KEY_AGAIN" 129
    ∷ key "KEY_PROPS" 130
    ∷ key "KEY_UNDO" 131
    ∷ key "KEY_FRONT" 132
    ∷ key "KEY_COPY" 133
    ∷ []
