-- ===== src/Protocol/Packet/Canonical.antt =====
-- `decode` and then `encode` of protocol/src/packet.cpp.
use remote_bsp.Prelude.{◌≡◌, All, ◌∷◌, ok, arith}
use remote_bsp.Bytes.{Bytes, IsByte}
use remote_bsp.Bytes.Laws.{read_u16_sum, read_u32_sum}
use remote_bsp.Protocol.Packet.{Packet, encode, decode}

-- Where `decode` accepts a byte string and returns a packet, `encode` writes exactly that byte string
-- for the packet.
pub encode-decode :
    (bytes : Bytes) (p : Packet) → All IsByte bytes → decode bytes ≡ ok p → encode p ≡ ok bytes
unfolding decode encode
encode-decode
      (b0 ∷ b1 ∷ b2 ∷ b3 ∷ b4 ∷ b5 ∷ b6 ∷ b7 ∷ b8 ∷ b9 ∷ b10 ∷ b11 ∷ b12 ∷ b13 ∷ b14 ∷ b15 ∷ b16
        ∷ b17 ∷ b18 ∷ b19 ∷ b20 ∷ b21 ∷ b22 ∷ b23 ∷ rest)
      p
      (
        h0,
        (
          h1,
          (
            h2,
            (
              h3,
              (
                h4,
                (
                  h5,
                  (
                    h6,
                    (
                      h7,
                      (
                        h8,
                        (
                          h9,
                          (
                            h10,
                            (
                              h11,
                              (
                                h12,
                                (
                                  h13,
                                  (
                                    h14,
                                    (
                                      h15,
                                      (h16, (h17, (h18, (h19, (h20, (h21, (h22, (h23, hr)))))))),
                                    ),
                                  ),
                                ),
                              ),
                            ),
                          ),
                        ),
                      ),
                    ),
                  ),
                ),
              ),
            ),
          ),
        ),
      )
      e =
    ground (
      arith,
      read_u16_sum b2 b3
          (b4 ∷ b5 ∷ b6 ∷ b7 ∷ b8 ∷ b9 ∷ b10 ∷ b11 ∷ b12 ∷ b13 ∷ b14 ∷ b15 ∷ b16 ∷ b17 ∷ b18 ∷ b19
            ∷ b20 ∷ b21 ∷ b22 ∷ b23 ∷ rest)
          h2 h3,
      read_u32_sum b4 b5 b6 b7
          (b8 ∷ b9 ∷ b10 ∷ b11 ∷ b12 ∷ b13 ∷ b14 ∷ b15 ∷ b16 ∷ b17 ∷ b18 ∷ b19 ∷ b20 ∷ b21 ∷ b22
            ∷ b23 ∷ rest)
          h4 h5 h6,
      read_u32_sum b8 b9 b10 b11
          (b12 ∷ b13 ∷ b14 ∷ b15 ∷ b16 ∷ b17 ∷ b18 ∷ b19 ∷ b20 ∷ b21 ∷ b22 ∷ b23 ∷ rest) h8 h9 h10,
      read_u32_sum b12 b13 b14 b15 (b16 ∷ b17 ∷ b18 ∷ b19 ∷ b20 ∷ b21 ∷ b22 ∷ b23 ∷ rest) h12 h13
          h14,
      read_u16_sum b16 b17 (b18 ∷ b19 ∷ b20 ∷ b21 ∷ b22 ∷ b23 ∷ rest) h16 h17,
      read_u16_sum b18 b19 (b20 ∷ b21 ∷ b22 ∷ b23 ∷ rest) h18 h19,
      read_u32_sum b20 b21 b22 b23 (rest) h20 h21 h22,
    )
encode-decode bytes p h e = ground arith
