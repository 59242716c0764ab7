-- ===== src/Client/KnownServers.antt =====
-- The servers that src/protocol/constants.rs lists, in its order. Their names, which only messages
-- show, are left out.
use tdxrs.Base.{ℕ, List, [], ◌∷◌, ◌++◌}
use tdxrs.Text.{decimal}
use tdxrs.Pool.Key.{Server}

-- The address `a.b.c.d` and a port.
abbrev address : ℕ → ℕ → ℕ → ℕ → ℕ → Server
address a b c d port = record {
  host = decimal a ++ (46 ∷ (decimal b ++ (46 ∷ (decimal c ++ (46 ∷ decimal d)))));
  port = port;
}

unfoldable pub primary_servers : List Server
primary_servers =
    address 59 36 5 11 7709
    ∷ address 117 34 114 14 7709
    ∷ address 117 34 114 15 7709
    ∷ address 117 34 114 16 7709
    ∷ address 117 34 114 17 7709
    ∷ address 117 34 114 18 7709
    ∷ address 117 34 114 20 7709
    ∷ address 117 34 114 27 7709
    ∷ address 183 60 224 177 7709
    ∷ address 60 12 136 250 7709
    ∷ address 218 106 92 182 7709
    ∷ address 218 75 126 9 7709
    ∷ address 180 153 18 170 7709
    ∷ address 182 131 3 252 7709
    ∷ address 220 178 55 71 7709
    ∷ address 115 238 56 198 7709
    ∷ address 60 191 117 167 7709
    ∷ address 115 238 90 165 7709
    ∷ []

unfoldable pub all_known_servers : List Server
all_known_servers =
    address 58 63 254 191 7709
    ∷ address 119 29 19 242 7709
    ∷ address 202 96 138 90 7709
    ∷ address 183 60 224 177 7709
    ∷ address 60 12 136 250 7709
    ∷ address 218 106 92 182 7709
    ∷ address 175 6 5 153 7709
    ∷ address 182 131 3 245 7709
    ∷ address 182 131 3 252 7709
    ∷ address 218 75 126 9 7709
    ∷ address 220 178 55 71 7709
    ∷ address 182 118 47 151 7709
    ∷ address 123 125 108 90 7709
    ∷ address 115 238 56 198 7709
    ∷ address 180 153 18 170 7709
    ∷ address 60 191 117 167 7709
    ∷ address 115 238 90 165 7709
    ∷ address 218 6 170 47 7709
    ∷ address 123 125 108 14 7709
    ∷ address 58 63 254 217 7709
    ∷ address 183 60 224 178 7709
    ∷ address 218 106 92 183 7709
    ∷ address 220 178 55 86 7709
    ∷ address 58 63 254 191 7709
    ∷ address 59 36 5 11 7709
    ∷ address 117 34 114 15 7709
    ∷ address 117 34 114 14 7709
    ∷ address 117 34 114 13 7709
    ∷ address 117 34 114 17 7709
    ∷ address 117 34 114 18 7709
    ∷ address 117 34 114 16 7709
    ∷ address 117 34 114 20 7709
    ∷ address 117 34 114 27 7709
    ∷ address 202 100 166 27 7709
    ∷ address 218 85 139 19 7709
    ∷ address 218 85 139 20 7709
    ∷ address 58 23 131 163 7709
    ∷ address 180 153 18 171 7709
    ∷ address 202 108 253 130 7709
    ∷ address 202 108 253 131 7709
    ∷ address 124 160 88 183 7709
    ∷ address 218 108 98 244 7709
    ∷ address 218 108 47 69 7709
    ∷ address 223 94 89 115 7709
    ∷ address 218 57 11 101 7709
    ∷ address 58 58 33 123 7709
    ∷ address 14 17 75 71 7709
    ∷ address 114 80 63 12 7709
    ∷ address 114 80 63 35 7709
    ∷ address 180 153 39 51 7709
    ∷ address 119 147 212 81 7709
    ∷ address 221 231 141 60 7709
    ∷ address 101 227 73 20 7709
    ∷ address 101 227 77 254 7709
    ∷ address 14 215 128 18 7709
    ∷ address 59 173 18 140 7709
    ∷ address 60 28 23 80 7709
    ∷ address 218 60 29 136 7709
    ∷ address 122 192 35 44 7709
    ∷ address 112 95 140 74 7709
    ∷ address 112 95 140 92 7709
    ∷ address 112 95 140 93 7709
    ∷ address 114 80 149 19 7709
    ∷ address 114 80 149 21 7709
    ∷ address 114 80 149 22 7709
    ∷ address 114 80 149 91 7709
    ∷ address 114 80 149 92 7709
    ∷ address 121 14 104 60 7709
    ∷ address 121 14 104 66 7709
    ∷ address 123 126 133 13 7709
    ∷ address 123 126 133 14 7709
    ∷ address 123 126 133 21 7709
    ∷ address 211 139 150 61 7709
    ∷ address 123 138 29 107 7709
    ∷ address 123 138 29 108 7709
    ∷ address 124 232 142 29 7709
    ∷ address 183 57 72 11 7709
    ∷ address 183 57 72 12 7709
    ∷ address 183 57 72 13 7709
    ∷ address 183 57 72 15 7709
    ∷ address 183 57 72 21 7709
    ∷ address 183 57 72 22 7709
    ∷ address 183 57 72 23 7709
    ∷ address 183 57 72 24 7709
    ∷ address 113 105 92 100 7709
    ∷ address 113 105 92 101 7709
    ∷ address 113 105 92 102 7709
    ∷ address 113 105 92 103 7709
    ∷ address 113 105 92 104 7709
    ∷ address 113 105 92 99 7709
    ∷ address 117 34 114 30 7709
    ∷ address 117 34 114 31 7709
    ∷ address 183 60 224 11 7709
    ∷ address 58 210 106 91 7709
    ∷ address 58 63 254 216 7709
    ∷ address 58 63 254 219 7709
    ∷ address 58 63 254 247 7709
    ∷ address 222 161 249 156 7709
    ∷ address 42 123 69 62 7709
    ∷ address 120 55 172 97 7709
    ∷ address 139 217 20 27 7709
    ∷ address 202 100 166 21 7709
    ∷ []
