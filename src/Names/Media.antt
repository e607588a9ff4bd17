-- ===== src/Names/Media.antt =====
-- names.c, `names_init`: the keys of multimedia keyboards, up to KEY_MICMUTE, in the order of the source.
use keytap.Base.{List, [], ◌∷◌}
use keytap.Names.Tables.{Entry, key}

unfoldable pub media_keys : List Entry
media_keys =
    key "KEY_OPEN" 134
    ∷ key "KEY_PASTE" 135
    ∷ key "KEY_FIND" 136
    ∷ key "KEY_CUT" 137
    ∷ key "KEY_HELP" 138
    ∷ key "KEY_MENU" 139
    ∷ key "KEY_CALC" 140
    ∷ key "KEY_SETUP" 141
    ∷ key "KEY_SLEEP" 142
    ∷ key "KEY_WAKEUP" 143
    ∷ key "KEY_FILE" 144
    ∷ key "KEY_SENDFILE" 145
    ∷ key "KEY_DELETEFILE" 146
    ∷ key "KEY_XFER" 147
    ∷ key "KEY_PROG1" 148
    ∷ key "KEY_PROG2" 149
    ∷ key "KEY_WWW" 150
    ∷ key "KEY_MSDOS" 151
    ∷ key "KEY_SCREENLOCK" 152
    ∷ key "KEY_ROTATE_DISPLAY" 153
    ∷ key "KEY_CYCLEWINDOWS" 154
    ∷ key "KEY_MAIL" 155
    ∷ key "KEY_BOOKMARKS" 156
    ∷ key "KEY_COMPUTER" 157
    ∷ key "KEY_BACK" 158
    ∷ key "KEY_FORWARD" 159
    ∷ key "KEY_CLOSECD" 160
    ∷ key "KEY_EJECTCD" 161
    ∷ key "KEY_EJECTCLOSECD" 162
    ∷ key "KEY_NEXTSONG" 163
    ∷ key "KEY_PLAYPAUSE" 164
    ∷ key "KEY_PREVIOUSSONG" 165
    ∷ key "KEY_STOPCD" 166
    ∷ key "KEY_RECORD" 167
    ∷ key "KEY_REWIND" 168
    ∷ key "KEY_PHONE" 169
    ∷ key "KEY_ISO" 170
    ∷ key "KEY_CONFIG" 171
    ∷ key "KEY_HOMEPAGE" 172
    ∷ key "KEY_REFRESH" 173
    ∷ key "KEY_EXIT" 174
    ∷ key "KEY_MOVE" 175
    ∷ key "KEY_EDIT" 176
    ∷ key "KEY_SCROLLUP" 177
    ∷ key "KEY_SCROLLDOWN" 178
    ∷ key "KEY_KPLEFTPAREN" 179
    ∷ key "KEY_KPRIGHTPAREN" 180
    ∷ key "KEY_NEW" 181
    ∷ key "KEY_REDO" 182
    ∷ key "KEY_F13" 183
    ∷ key "KEY_F14" 184
    ∷ key "KEY_F15" 185
    ∷ key "KEY_F16" 186
    ∷ key "KEY_F17" 187
    ∷ key "KEY_F18" 188
    ∷ key "KEY_F19" 189
    ∷ key "KEY_F20" 190
    ∷ key "KEY_F21" 191
    ∷ key "KEY_F22" 192
    ∷ key "KEY_F23" 193
    ∷ key "KEY_F24" 194
    ∷ key "KEY_PLAYCD" 200
    ∷ key "KEY_PAUSECD" 201
    ∷ key "KEY_PROG3" 202
    ∷ key "KEY_PROG4" 203
    ∷ key "KEY_DASHBOARD" 204
    ∷ key "KEY_SUSPEND" 205
    ∷ key "KEY_CLOSE" 206
    ∷ key "KEY_PLAY" 207
    ∷ key "KEY_FASTFORWARD" 208
    ∷ key "KEY_BASSBOOST" 209
    ∷ key "KEY_PRINT" 210
    ∷ key "KEY_HP" 211
    ∷ key "KEY_CAMERA" 212
    ∷ key "KEY_SOUND" 213
    ∷ key "KEY_QUESTION" 214
    ∷ key "KEY_EMAIL" 215
    ∷ key "KEY_CHAT" 216
    ∷ key "KEY_SEARCH" 217
    ∷ key "KEY_CONNECT" 218
    ∷ key "KEY_FINANCE" 219
    ∷ key "KEY_SPORT" 220
    ∷ key "KEY_SHOP" 221
    ∷ key "KEY_ALTERASE" 222
    ∷ key "KEY_CANCEL" 223
    ∷ key "KEY_BRIGHTNESSDOWN" 224
    ∷ key "KEY_BRIGHTNESSUP" 225
    ∷ key "KEY_MEDIA" 226
    ∷ key "KEY_SWITCHVIDEOMODE" 227
    ∷ key "KEY_KBDILLUMTOGGLE" 228
    ∷ key "KEY_KBDILLUMDOWN" 229
    ∷ key "KEY_KBDILLUMUP" 230
    ∷ key "KEY_SEND" 231
    ∷ key "KEY_REPLY" 232
    ∷ key "KEY_FORWARDMAIL" 233
    ∷ key "KEY_SAVE" 234
    ∷ key "KEY_DOCUMENTS" 235
    ∷ key "KEY_BATTERY" 236
    ∷ key "KEY_BLUETOOTH" 237
    ∷ key "KEY_WLAN" 238
    ∷ key "KEY_UWB" 239
    ∷ key "KEY_UNKNOWN" 240
    ∷ key "KEY_VIDEO_NEXT" 241
    ∷ key "KEY_VIDEO_PREV" 242
    ∷ key "KEY_BRIGHTNESS_CYCLE" 243
    ∷ key "KEY_BRIGHTNESS_AUTO" 244
    ∷ key "KEY_DISPLAY_OFF" 245
    ∷ key "KEY_WWAN" 246
    ∷ key "KEY_RFKILL" 247
    ∷ key "KEY_MICMUTE" 248
    ∷ []
