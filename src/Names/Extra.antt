-- ===== src/Names/Extra.antt =====
-- names.c, `names_init`: the rest, and the aliases, in the order of the source.
use keytap.Base.{List, [], ◌∷◌}
use keytap.Names.Tables.{Entry, key, alias}

unfoldable pub extra_keys : List Entry
extra_keys =
    key "KEY_BRL_DOT4" 0x1f4
    ∷ key "KEY_BRL_DOT5" 0x1f5
    ∷ key "KEY_BRL_DOT6" 0x1f6
    ∷ key "KEY_BRL_DOT7" 0x1f7
    ∷ key "KEY_BRL_DOT8" 0x1f8
    ∷ key "KEY_BRL_DOT9" 0x1f9
    ∷ key "KEY_BRL_DOT10" 0x1fa
    ∷ key "KEY_NUMERIC_0" 0x200
    ∷ key "KEY_NUMERIC_1" 0x201
    ∷ key "KEY_NUMERIC_2" 0x202
    ∷ key "KEY_NUMERIC_3" 0x203
    ∷ key "KEY_NUMERIC_4" 0x204
    ∷ key "KEY_NUMERIC_5" 0x205
    ∷ key "KEY_NUMERIC_6" 0x206
    ∷ key "KEY_NUMERIC_7" 0x207
    ∷ key "KEY_NUMERIC_8" 0x208
    ∷ key "KEY_NUMERIC_9" 0x209
    ∷ key "KEY_NUMERIC_STAR" 0x20a
    ∷ key "KEY_NUMERIC_POUND" 0x20b
    ∷ key "KEY_NUMERIC_A" 0x20c
    ∷ key "KEY_NUMERIC_B" 0x20d
    ∷ key "KEY_NUMERIC_C" 0x20e
    ∷ key "KEY_NUMERIC_D" 0x20f
    ∷ key "KEY_CAMERA_FOCUS" 0x210
    ∷ key "KEY_WPS_BUTTON" 0x211
    ∷ key "KEY_TOUCHPAD_TOGGLE" 0x212
    ∷ key "KEY_TOUCHPAD_ON" 0x213
    ∷ key "KEY_TOUCHPAD_OFF" 0x214
    ∷ key "KEY_CAMERA_ZOOMIN" 0x215
    ∷ key "KEY_CAMERA_ZOOMOUT" 0x216
    ∷ key "KEY_CAMERA_UP" 0x217
    ∷ key "KEY_CAMERA_DOWN" 0x218
    ∷ key "KEY_CAMERA_LEFT" 0x219
    ∷ key "KEY_CAMERA_RIGHT" 0x21a
    ∷ key "KEY_ATTENDANT_ON" 0x21b
    ∷ key "KEY_ATTENDANT_OFF" 0x21c
    ∷ key "KEY_ATTENDANT_TOGGLE" 0x21d
    ∷ key "KEY_LIGHTS_TOGGLE" 0x21e
    ∷ key "BTN_DPAD_UP" 0x220
    ∷ key "BTN_DPAD_DOWN" 0x221
    ∷ key "BTN_DPAD_LEFT" 0x222
    ∷ key "BTN_DPAD_RIGHT" 0x223
    ∷ key "KEY_ALS_TOGGLE" 0x230
    ∷ key "KEY_ROTATE_LOCK_TOGGLE" 0x231
    ∷ key "KEY_BUTTONCONFIG" 0x240
    ∷ key "KEY_TASKMANAGER" 0x241
    ∷ key "KEY_JOURNAL" 0x242
    ∷ key "KEY_CONTROLPANEL" 0x243
    ∷ key "KEY_APPSELECT" 0x244
    ∷ key "KEY_SCREENSAVER" 0x245
    ∷ key "KEY_VOICECOMMAND" 0x246
    ∷ key "KEY_ASSISTANT" 0x247
    ∷ key "KEY_BRIGHTNESS_MIN" 0x250
    ∷ key "KEY_BRIGHTNESS_MAX" 0x251
    ∷ key "KEY_KBDINPUTASSIST_PREV" 0x260
    ∷ key "KEY_KBDINPUTASSIST_NEXT" 0x261
    ∷ key "KEY_KBDINPUTASSIST_PREVGROUP" 0x262
    ∷ key "KEY_KBDINPUTASSIST_NEXTGROUP" 0x263
    ∷ key "KEY_KBDINPUTASSIST_ACCEPT" 0x264
    ∷ key "KEY_KBDINPUTASSIST_CANCEL" 0x265
    ∷ key "KEY_RIGHT_UP" 0x266
    ∷ key "KEY_RIGHT_DOWN" 0x267
    ∷ key "KEY_LEFT_UP" 0x268
    ∷ key "KEY_LEFT_DOWN" 0x269
    ∷ key "KEY_ROOT_MENU" 0x26a
    ∷ key "KEY_MEDIA_TOP_MENU" 0x26b
    ∷ key "KEY_NUMERIC_11" 0x26c
    ∷ key "KEY_NUMERIC_12" 0x26d
    ∷ key "KEY_AUDIO_DESC" 0x26e
    ∷ key "KEY_3D_MODE" 0x26f
    ∷ key "KEY_NEXT_FAVORITE" 0x270
    ∷ key "KEY_STOP_RECORD" 0x271
    ∷ key "KEY_PAUSE_RECORD" 0x272
    ∷ key "KEY_VOD" 0x273
    ∷ key "KEY_UNMUTE" 0x274
    ∷ key "KEY_FASTREVERSE" 0x275
    ∷ key "KEY_SLOWREVERSE" 0x276
    ∷ key "KEY_DATA" 0x277
    ∷ key "KEY_ONSCREEN_KEYBOARD" 0x278
    ∷ key "BTN_TRIGGER_HAPPY" 0x2c0
    ∷ key "BTN_TRIGGER_HAPPY1" 0x2c0
    ∷ key "BTN_TRIGGER_HAPPY2" 0x2c1
    ∷ key "BTN_TRIGGER_HAPPY3" 0x2c2
    ∷ key "BTN_TRIGGER_HAPPY4" 0x2c3
    ∷ key "BTN_TRIGGER_HAPPY5" 0x2c4
    ∷ key "BTN_TRIGGER_HAPPY6" 0x2c5
    ∷ key "BTN_TRIGGER_HAPPY7" 0x2c6
    ∷ key "BTN_TRIGGER_HAPPY8" 0x2c7
    ∷ key "BTN_TRIGGER_HAPPY9" 0x2c8
    ∷ key "BTN_TRIGGER_HAPPY10" 0x2c9
    ∷ key "BTN_TRIGGER_HAPPY11" 0x2ca
    ∷ key "BTN_TRIGGER_HAPPY12" 0x2cb
    ∷ key "BTN_TRIGGER_HAPPY13" 0x2cc
    ∷ key "BTN_TRIGGER_HAPPY14" 0x2cd
    ∷ key "BTN_TRIGGER_HAPPY15" 0x2ce
    ∷ key "BTN_TRIGGER_HAPPY16" 0x2cf
    ∷ key "BTN_TRIGGER_HAPPY17" 0x2d0
    ∷ key "BTN_TRIGGER_HAPPY18" 0x2d1
    ∷ key "BTN_TRIGGER_HAPPY19" 0x2d2
    ∷ key "BTN_TRIGGER_HAPPY20" 0x2d3
    ∷ key "BTN_TRIGGER_HAPPY21" 0x2d4
    ∷ key "BTN_TRIGGER_HAPPY22" 0x2d5
    ∷ key "BTN_TRIGGER_HAPPY23" 0x2d6
    ∷ key "BTN_TRIGGER_HAPPY24" 0x2d7
    ∷ key "BTN_TRIGGER_HAPPY25" 0x2d8
    ∷ key "BTN_TRIGGER_HAPPY26" 0x2d9
    ∷ key "BTN_TRIGGER_HAPPY27" 0x2da
    ∷ key "BTN_TRIGGER_HAPPY28" 0x2db
    ∷ key "BTN_TRIGGER_HAPPY29" 0x2dc
    ∷ key "BTN_TRIGGER_HAPPY30" 0x2dd
    ∷ key "BTN_TRIGGER_HAPPY31" 0x2de
    ∷ key "BTN_TRIGGER_HAPPY32" 0x2df
    ∷ key "BTN_TRIGGER_HAPPY33" 0x2e0
    ∷ key "BTN_TRIGGER_HAPPY34" 0x2e1
    ∷ key "BTN_TRIGGER_HAPPY35" 0x2e2
    ∷ key "BTN_TRIGGER_HAPPY36" 0x2e3
    ∷ key "BTN_TRIGGER_HAPPY37" 0x2e4
    ∷ key "BTN_TRIGGER_HAPPY38" 0x2e5
    ∷ key "BTN_TRIGGER_HAPPY39" 0x2e6
    ∷ key "BTN_TRIGGER_HAPPY40" 0x2e7
    ∷ alias "KEY_RESERVED" 0
    ∷ alias "KEY_HANGUEL" 122
    ∷ alias "KEY_COFFEE" 152
    ∷ alias "KEY_DIRECTION" 153
    ∷ alias "KEY_BRIGHTNESS_ZERO" 244
    ∷ alias "KEY_WIMAX" 246
    ∷ alias "BTN_A" 0x130
    ∷ alias "BTN_B" 0x131
    ∷ alias "BTN_X" 0x133
    ∷ alias "BTN_Y" 0x134
    ∷ []
