-- ===== src/Names/Buttons.antt =====
-- names.c, `names_init`: the buttons of mice, joysticks, gamepads and pens, in the order of the source.
use keytap.Base.{List, [], ◌∷◌}
use keytap.Names.Tables.{Entry, key}

unfoldable pub buttons : List Entry
buttons =
    key "BTN_MISC" 0x100
    ∷ key "BTN_0" 0x100
    ∷ key "BTN_1" 0x101
    ∷ key "BTN_2" 0x102
    ∷ key "BTN_3" 0x103
    ∷ key "BTN_4" 0x104
    ∷ key "BTN_5" 0x105
    ∷ key "BTN_6" 0x106
    ∷ key "BTN_7" 0x107
    ∷ key "BTN_8" 0x108
    ∷ key "BTN_9" 0x109
    ∷ key "BTN_MOUSE" 0x110
    ∷ key "BTN_LEFT" 0x110
    ∷ key "BTN_RIGHT" 0x111
    ∷ key "BTN_MIDDLE" 0x112
    ∷ key "BTN_SIDE" 0x113
    ∷ key "BTN_EXTRA" 0x114
    ∷ key "BTN_FORWARD" 0x115
    ∷ key "BTN_BACK" 0x116
    ∷ key "BTN_TASK" 0x117
    ∷ key "BTN_JOYSTICK" 0x120
    ∷ key "BTN_TRIGGER" 0x120
    ∷ key "BTN_THUMB" 0x121
    ∷ key "BTN_THUMB2" 0x122
    ∷ key "BTN_TOP" 0x123
    ∷ key "BTN_TOP2" 0x124
    ∷ key "BTN_PINKIE" 0x125
    ∷ key "BTN_BASE" 0x126
    ∷ key "BTN_BASE2" 0x127
    ∷ key "BTN_BASE3" 0x128
    ∷ key "BTN_BASE4" 0x129
    ∷ key "BTN_BASE5" 0x12a
    ∷ key "BTN_BASE6" 0x12b
    ∷ key "BTN_DEAD" 0x12f
    ∷ key "BTN_GAMEPAD" 0x130
    ∷ key "BTN_SOUTH" 0x130
    ∷ key "BTN_EAST" 0x131
    ∷ key "BTN_C" 0x132
    ∷ key "BTN_NORTH" 0x133
    ∷ key "BTN_WEST" 0x134
    ∷ key "BTN_Z" 0x135
    ∷ key "BTN_TL" 0x136
    ∷ key "BTN_TR" 0x137
    ∷ key "BTN_TL2" 0x138
    ∷ key "BTN_TR2" 0x139
    ∷ key "BTN_SELECT" 0x13a
    ∷ key "BTN_START" 0x13b
    ∷ key "BTN_MODE" 0x13c
    ∷ key "BTN_THUMBL" 0x13d
    ∷ key "BTN_THUMBR" 0x13e
    ∷ key "BTN_DIGI" 0x140
    ∷ key "BTN_TOOL_PEN" 0x140
    ∷ key "BTN_TOOL_RUBBER" 0x141
    ∷ key "BTN_TOOL_BRUSH" 0x142
    ∷ key "BTN_TOOL_PENCIL" 0x143
    ∷ key "BTN_TOOL_AIRBRUSH" 0x144
    ∷ key "BTN_TOOL_FINGER" 0x145
    ∷ key "BTN_TOOL_MOUSE" 0x146
    ∷ key "BTN_TOOL_LENS" 0x147
    ∷ key "BTN_TOOL_QUINTTAP" 0x148
    ∷ key "BTN_STYLUS3" 0x149
    ∷ key "BTN_TOUCH" 0x14a
    ∷ key "BTN_STYLUS" 0x14b
    ∷ key "BTN_STYLUS2" 0x14c
    ∷ key "BTN_TOOL_DOUBLETAP" 0x14d
    ∷ key "BTN_TOOL_TRIPLETAP" 0x14e
    ∷ key "BTN_TOOL_QUADTAP" 0x14f
    ∷ key "BTN_WHEEL" 0x150
    ∷ key "BTN_GEAR_DOWN" 0x150
    ∷ key "BTN_GEAR_UP" 0x151
    ∷ []
