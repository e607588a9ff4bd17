-- ===== src/Names/Remote.antt =====
-- names.c, `names_init`: the keys of remote controls, in the order of the source.
use keytap.Base.{List, [], ◌∷◌}
use keytap.Names.Tables.{Entry, key}

unfoldable pub remote_keys : List Entry
remote_keys =
    key "KEY_OK" 0x160
    ∷ key "KEY_SELECT" 0x161
    ∷ key "KEY_GOTO" 0x162
    ∷ key "KEY_CLEAR" 0x163
    ∷ key "KEY_POWER2" 0x164
    ∷ key "KEY_OPTION" 0x165
    ∷ key "KEY_INFO" 0x166
    ∷ key "KEY_TIME" 0x167
    ∷ key "KEY_VENDOR" 0x168
    ∷ key "KEY_ARCHIVE" 0x169
    ∷ key "KEY_PROGRAM" 0x16a
    ∷ key "KEY_CHANNEL" 0x16b
    ∷ key "KEY_FAVORITES" 0x16c
    ∷ key "KEY_EPG" 0x16d
    ∷ key "KEY_PVR" 0x16e
    ∷ key "KEY_MHP" 0x16f
    ∷ key "KEY_LANGUAGE" 0x170
    ∷ key "KEY_TITLE" 0x171
    ∷ key "KEY_SUBTITLE" 0x172
    ∷ key "KEY_ANGLE" 0x173
    ∷ key "KEY_ZOOM" 0x174
    ∷ key "KEY_MODE" 0x175
    ∷ key "KEY_KEYBOARD" 0x176
    ∷ key "KEY_SCREEN" 0x177
    ∷ key "KEY_PC" 0x178
    ∷ key "KEY_TV" 0x179
    ∷ key "KEY_TV2" 0x17a
    ∷ key "KEY_VCR" 0x17b
    ∷ key "KEY_VCR2" 0x17c
    ∷ key "KEY_SAT" 0x17d
    ∷ key "KEY_SAT2" 0x17e
    ∷ key "KEY_CD" 0x17f
    ∷ key "KEY_TAPE" 0x180
    ∷ key "KEY_RADIO" 0x181
    ∷ key "KEY_TUNER" 0x182
    ∷ key "KEY_PLAYER" 0x183
    ∷ key "KEY_TEXT" 0x184
    ∷ key "KEY_DVD" 0x185
    ∷ key "KEY_AUX" 0x186
    ∷ key "KEY_MP3" 0x187
    ∷ key "KEY_AUDIO" 0x188
    ∷ key "KEY_VIDEO" 0x189
    ∷ key "KEY_DIRECTORY" 0x18a
    ∷ key "KEY_LIST" 0x18b
    ∷ key "KEY_MEMO" 0x18c
    ∷ key "KEY_CALENDAR" 0x18d
    ∷ key "KEY_RED" 0x18e
    ∷ key "KEY_GREEN" 0x18f
    ∷ key "KEY_YELLOW" 0x190
    ∷ key "KEY_BLUE" 0x191
    ∷ key "KEY_CHANNELUP" 0x192
    ∷ key "KEY_CHANNELDOWN" 0x193
    ∷ key "KEY_FIRST" 0x194
    ∷ key "KEY_LAST" 0x195
    ∷ key "KEY_AB" 0x196
    ∷ key "KEY_NEXT" 0x197
    ∷ key "KEY_RESTART" 0x198
    ∷ key "KEY_SLOW" 0x199
    ∷ key "KEY_SHUFFLE" 0x19a
    ∷ key "KEY_BREAK" 0x19b
    ∷ key "KEY_PREVIOUS" 0x19c
    ∷ key "KEY_DIGITS" 0x19d
    ∷ key "KEY_TEEN" 0x19e
    ∷ key "KEY_TWEN" 0x19f
    ∷ key "KEY_VIDEOPHONE" 0x1a0
    ∷ key "KEY_GAMES" 0x1a1
    ∷ key "KEY_ZOOMIN" 0x1a2
    ∷ key "KEY_ZOOMOUT" 0x1a3
    ∷ key "KEY_ZOOMRESET" 0x1a4
    ∷ key "KEY_WORDPROCESSOR" 0x1a5
    ∷ key "KEY_EDITOR" 0x1a6
    ∷ key "KEY_SPREADSHEET" 0x1a7
    ∷ key "KEY_GRAPHICSEDITOR" 0x1a8
    ∷ key "KEY_PRESENTATION" 0x1a9
    ∷ key "KEY_DATABASE" 0x1aa
    ∷ key "KEY_NEWS" 0x1ab
    ∷ key "KEY_VOICEMAIL" 0x1ac
    ∷ key "KEY_ADDRESSBOOK" 0x1ad
    ∷ key "KEY_MESSENGER" 0x1ae
    ∷ key "KEY_DISPLAYTOGGLE" 0x1af
    ∷ key "KEY_BRIGHTNESS_TOGGLE" 0x1af
    ∷ key "KEY_SPELLCHECK" 0x1b0
    ∷ key "KEY_LOGOFF" 0x1b1
    ∷ key "KEY_DOLLAR" 0x1b2
    ∷ key "KEY_EURO" 0x1b3
    ∷ key "KEY_FRAMEBACK" 0x1b4
    ∷ key "KEY_FRAMEFORWARD" 0x1b5
    ∷ key "KEY_CONTEXT_MENU" 0x1b6
    ∷ key "KEY_MEDIA_REPEAT" 0x1b7
    ∷ key "KEY_10CHANNELSUP" 0x1b8
    ∷ key "KEY_10CHANNELSDOWN" 0x1b9
    ∷ key "KEY_IMAGES" 0x1ba
    ∷ key "KEY_DEL_EOL" 0x1c0
    ∷ key "KEY_DEL_EOS" 0x1c1
    ∷ key "KEY_INS_LINE" 0x1c2
    ∷ key "KEY_DEL_LINE" 0x1c3
    ∷ key "KEY_FN" 0x1d0
    ∷ key "KEY_FN_ESC" 0x1d1
    ∷ key "KEY_FN_F1" 0x1d2
    ∷ key "KEY_FN_F2" 0x1d3
    ∷ key "KEY_FN_F3" 0x1d4
    ∷ key "KEY_FN_F4" 0x1d5
    ∷ key "KEY_FN_F5" 0x1d6
    ∷ key "KEY_FN_F6" 0x1d7
    ∷ key "KEY_FN_F7" 0x1d8
    ∷ key "KEY_FN_F8" 0x1d9
    ∷ key "KEY_FN_F9" 0x1da
    ∷ key "KEY_FN_F10" 0x1db
    ∷ key "KEY_FN_F11" 0x1dc
    ∷ key "KEY_FN_F12" 0x1dd
    ∷ key "KEY_FN_1" 0x1de
    ∷ key "KEY_FN_2" 0x1df
    ∷ key "KEY_FN_D" 0x1e0
    ∷ key "KEY_FN_E" 0x1e1
    ∷ key "KEY_FN_F" 0x1e2
    ∷ key "KEY_FN_S" 0x1e3
    ∷ key "KEY_FN_B" 0x1e4
    ∷ key "KEY_BRL_DOT1" 0x1f1
    ∷ key "KEY_BRL_DOT2" 0x1f2
    ∷ key "KEY_BRL_DOT3" 0x1f3
    ∷ []
