-- ===== src/Pinmux/Tables/Dv100.antt =====
-- src/reginfo.c: the registers of `DV100regs`, in its order.
use ipctool.Base.{List, [], ◌∷◌, ◌≡◌, refl, true}
use ipctool.Pinmux.Register.{Register, muxctrl, proper}

pub dv100_regs : List Register
dv100_regs =
    muxctrl 0x120F0000 ("GPIO2_4" ∷ "VGA_HS" ∷ [])
    ∷ muxctrl 0x120F0004 ("GPIO2_5" ∷ "VGA_VS" ∷ [])
    ∷ muxctrl 0x120F0008 ("PWM_SVB_CORE" ∷ "GPIO2_6" ∷ [])
    ∷ muxctrl 0x120F000C ("PWM_SVB_CPU" ∷ "GPIO2_7" ∷ [])
    ∷ muxctrl 0x120F0010 ("GPIO5_7" ∷ "PWM_FREE" ∷ [])
    ∷ muxctrl 0x120F0014 ("GPIO3_0" ∷ "I2C_SDA" ∷ [])
    ∷ muxctrl 0x120F0018 ("GPIO3_1" ∷ "I2C_SCL" ∷ [])
    ∷ muxctrl 0x120F001C ("GPIO4_0" ∷ "UART1_RXD" ∷ [])
    ∷ muxctrl 0x120F0020 ("GPIO4_1" ∷ "UART1_TXD" ∷ [])
    ∷ muxctrl 0x120F0024 ("GPIO4_2" ∷ "UART1_RTSN" ∷ [])
    ∷ muxctrl 0x120F0028 ("GPIO4_3" ∷ "UART1_CTSN" ∷ [])
    ∷ muxctrl 0x120F002C ("GPIO4_4" ∷ "UART2_RXD" ∷ [])
    ∷ muxctrl 0x120F0030 ("GPIO4_5" ∷ "UART2_TXD" ∷ [])
    ∷ muxctrl 0x120F0034 ("GPIO4_6" ∷ "ETH_LINK_LED" ∷ [])
    ∷ muxctrl 0x120F0038 ("GPIO4_7" ∷ "ETH_SPD_LED" ∷ [])
    ∷ muxctrl 0x120F003C ("GPIO3_2" ∷ "IR_IN" ∷ [])
    ∷ muxctrl 0x120F0040 ("GPIO5_0" ∷ "reserved" ∷ "reserved" ∷ "I2S_SD_RX" ∷ [])
    ∷ muxctrl 0x120F0044 ("GPIO5_1" ∷ "reserved" ∷ "reserved" ∷ "I2S_MCLK" ∷ [])
    ∷ muxctrl 0x120F0048 ("GPIO5_2" ∷ "reserved" ∷ "reserved" ∷ "I2S_WS" ∷ [])
    ∷ muxctrl 0x120F004C ("GPIO5_3" ∷ "reserved" ∷ "reserved" ∷ "I2S_BCLK" ∷ [])
    ∷ muxctrl 0x120F0050 ("GPIO5_4" ∷ "reserved" ∷ "reserved" ∷ "I2S_SD_TX" ∷ [])
    ∷ muxctrl 0x120F0054 ("GPIO5_5" ∷ "USB2_PWREN0" ∷ [])
    ∷ muxctrl 0x120F0058 ("GPIO5_6" ∷ "USB2_PWREN1" ∷ [])
    ∷ muxctrl 0x120F005C ("GPIO3_3" ∷ "HDMI_HOTPLUG" ∷ [])
    ∷ muxctrl 0x120F0060 ("GPIO3_4" ∷ "HDMI_SDA" ∷ [])
    ∷ muxctrl 0x120F0064 ("GPIO3_5" ∷ "HDMI_SCL" ∷ [])
    ∷ muxctrl 0x120F0068 ("GPIO3_6" ∷ "SATA_LED_N" ∷ [])
    ∷ muxctrl 0x120F006C ("GPIO0_0" ∷ "MII_RXDV" ∷ [])
    ∷ muxctrl 0x120F0070 ("GPIO0_1" ∷ "MII_RXD3" ∷ "I2S_WS" ∷ [])
    ∷ muxctrl 0x120F0074 ("GPIO0_2" ∷ "MII_RXD2" ∷ [])
    ∷ muxctrl 0x120F0078 ("GPIO0_3" ∷ "MII_RXD1" ∷ "I2S_BCLK" ∷ [])
    ∷ muxctrl 0x120F007C ("GPIO0_4" ∷ "MII_RXD0" ∷ "I2S_MCLK" ∷ [])
    ∷ muxctrl 0x120F0080 ("GPIO0_5" ∷ "MII_RXCK" ∷ [])
    ∷ muxctrl 0x120F0084 ("GPIO0_6" ∷ "MII_TXEN" ∷ [])
    ∷ muxctrl 0x120F0088 ("GPIO0_7" ∷ "MII_TXD3" ∷ [])
    ∷ muxctrl 0x120F008C ("GPIO1_0" ∷ "MII_TXD2" ∷ [])
    ∷ muxctrl 0x120F0090 ("GPIO1_1" ∷ "MII_TXD1" ∷ "I2S_SD_RX" ∷ [])
    ∷ muxctrl 0x120F0094 ("GPIO1_2" ∷ "MII_TXD0" ∷ "I2S_SD_TX" ∷ [])
    ∷ muxctrl 0x120F0098 ("GPIO1_3" ∷ "MII_TXCK" ∷ "RMII_CLK" ∷ [])
    ∷ muxctrl 0x120F009C ("GPIO1_4" ∷ "MII_CRS" ∷ [])
    ∷ muxctrl 0x120F00A0 ("GPIO1_5" ∷ "MII_COL" ∷ [])
    ∷ muxctrl 0x120F00A4 ("GPIO1_6" ∷ "MII_RXER" ∷ [])
    ∷ muxctrl 0x120F00A8 ("GPIO1_7" ∷ "MII_TXER" ∷ [])
    ∷ muxctrl 0x120F00AC ("TEST_CLK" ∷ "EPHY_CLK" ∷ "GPIO2_0" ∷ [])
    ∷ muxctrl 0x120F00B0 ("GPIO2_1" ∷ "EPHY_RSTN" ∷ [])
    ∷ muxctrl 0x120F00B4 ("GPIO2_2" ∷ "MDCK" ∷ [])
    ∷ muxctrl 0x120F00B8 ("GPIO2_3" ∷ "MDIO" ∷ [])
    ∷ []

pub dv100_regs-proper : proper dv100_regs ≡ true
unfolding dv100_regs proper
dv100_regs-proper = refl
