-- ===== src/Pinmux/Tables/Rcv100.antt =====
-- src/reginfo.c: the registers of `RCV100regs`, in its order.
use ipctool.Base.{List, [], ◌∷◌, ◌≡◌, refl, true}
use ipctool.Pinmux.Register.{Register, muxctrl, proper}

pub rcv100_regs : List Register
rcv100_regs =
    muxctrl 0x120F0000 ("GPIO5_7" ∷ "reserved" ∷ "reserved" ∷ "RGMII1_TXER" ∷ [])
    ∷ muxctrl 0x120F0004 ("GPIO1_0" ∷ "reserved" ∷ "reserved" ∷ "EPHY1_CLK" ∷ [])
    ∷ muxctrl 0x120F0008 ("GPIO1_1" ∷ "reserved" ∷ "reserved" ∷ "RGMII1_TXD2" ∷ [])
    ∷ muxctrl 0x120F000C ("GPIO1_2" ∷ "reserved" ∷ "reserved" ∷ "RGMII1_TXD3" ∷ [])
    ∷ muxctrl 0x120F0010 ("GPIO1_3" ∷ "reserved" ∷ "reserved" ∷ "RGMII1_TXD1" ∷ [])
    ∷ muxctrl 0x120F0014
        ("GPIO1_4" ∷ "reserved" ∷ "reserved" ∷ "RGMII1_TXCKOUT" ∷ "MII1_TXCK" ∷ "RMII1_CLK" ∷ [])
    ∷ muxctrl 0x120F0018 ("GPIO1_5" ∷ "reserved" ∷ "reserved" ∷ "RGMII1_TXD0" ∷ [])
    ∷ muxctrl 0x120F001C ("GPIO1_6" ∷ "reserved" ∷ "reserved" ∷ "RGMII1_TXEN" ∷ [])
    ∷ muxctrl 0x120F0020 ("GPIO1_7" ∷ "reserved" ∷ "reserved" ∷ "RGMII1_RXER" ∷ [])
    ∷ muxctrl 0x120F0024 ("GPIO10_6" ∷ "reserved" ∷ "reserved" ∷ "RGMII1_RXCK" ∷ [])
    ∷ muxctrl 0x120F0028 ("GPIO2_0" ∷ "reserved" ∷ "reserved" ∷ "MDCK1" ∷ [])
    ∷ muxctrl 0x120F002C ("GPIO2_1" ∷ "reserved" ∷ "reserved" ∷ "MDIO1" ∷ [])
    ∷ muxctrl 0x120F0030 ("GPIO2_2" ∷ "reserved" ∷ "reserved" ∷ "RGMII1_CRS" ∷ [])
    ∷ muxctrl 0x120F0034 ("GPIO2_3" ∷ "reserved" ∷ "reserved" ∷ "EPHY1_RSTN" ∷ [])
    ∷ muxctrl 0x120F0038 ("GPIO2_4" ∷ "reserved" ∷ "reserved" ∷ "RGMII1_RXD3" ∷ [])
    ∷ muxctrl 0x120F003C ("GPIO2_5" ∷ "reserved" ∷ "reserved" ∷ "RGMII1_RXD2" ∷ [])
    ∷ muxctrl 0x120F0040 ("GPIO2_6" ∷ "reserved" ∷ "reserved" ∷ "RGMII1_RXD0" ∷ [])
    ∷ muxctrl 0x120F0044 ("GPIO2_7" ∷ "reserved" ∷ "reserved" ∷ "RGMII1_RXD1" ∷ [])
    ∷ muxctrl 0x120F0048 ("GPIO6_0" ∷ "reserved" ∷ "reserved" ∷ "RGMII1_RXDV" ∷ [])
    ∷ muxctrl 0x120F0050 ("GPIO3_0" ∷ "reserved" ∷ "reserved" ∷ "RGMII1_COL" ∷ [])
    ∷ muxctrl 0x120F0098 ("GPIO11_6" ∷ "VGA_HS" ∷ [])
    ∷ muxctrl 0x120F009C ("GPIO11_3" ∷ "VGA_VS" ∷ [])
    ∷ muxctrl 0x120F00AC ("GPIO9_3" ∷ "I2S1_BCLK_RX" ∷ "I2S2_MCLK" ∷ [])
    ∷ muxctrl 0x120F00B0 ("GPIO9_4" ∷ "I2S1_WS_RX" ∷ [])
    ∷ muxctrl 0x120F00B4 ("GPIO9_5" ∷ "I2S1_SD_RX" ∷ [])
    ∷ muxctrl 0x120F00B8 ("GPIO9_6" ∷ "I2S2_BCLK_TX" ∷ [])
    ∷ muxctrl 0x120F00BC ("GPIO9_7" ∷ "I2S2_WS_TX" ∷ [])
    ∷ muxctrl 0x120F00C0 ("GPIO5_4" ∷ "I2S2_SD_TX" ∷ [])
    ∷ muxctrl 0x120F00C4 ("TEST_CLK" ∷ "SPI_SCLK" ∷ "GPIO5_0" ∷ [])
    ∷ muxctrl 0x120F00C8 ("GPIO5_1" ∷ "SPI_MOSI" ∷ [])
    ∷ muxctrl 0x120F00CC ("GPIO5_2" ∷ "SPI_MISO" ∷ [])
    ∷ muxctrl 0x120F00D0 ("GPIO5_3" ∷ "SPI_CSN0" ∷ [])
    ∷ muxctrl 0x120F00D4 ("GPIO8_7" ∷ "SPI_CSN1" ∷ [])
    ∷ muxctrl 0x120F00D8 ("PWM_OUT0" ∷ "GPIO5_5" ∷ [])
    ∷ muxctrl 0x120F00DC ("PWM_OUT1" ∷ "GPIO5_6" ∷ [])
    ∷ muxctrl 0x120F00E0 ("GPIO12_6" ∷ "I2C_SDA" ∷ [])
    ∷ muxctrl 0x120F00E4 ("GPIO12_7" ∷ "I2C_SCL" ∷ [])
    ∷ muxctrl 0x120F00E8 ("UART0_RXD" ∷ "GPIO10_7" ∷ [])
    ∷ muxctrl 0x120F00EC ("UART0_TXD" ∷ "GPIO12_5" ∷ [])
    ∷ muxctrl 0x120F00F0 ("UART0_CTSN" ∷ "GPIO6_2" ∷ [])
    ∷ muxctrl 0x120F00F4 ("UART0_RTSN" ∷ "GPIO6_3" ∷ [])
    ∷ muxctrl 0x120F00F8 ("GPIO6_5" ∷ "UART1_RXD" ∷ [])
    ∷ muxctrl 0x120F00FC ("GPIO6_7" ∷ "UART1_TXD" ∷ [])
    ∷ muxctrl 0x120F0100 ("GPIO11_4" ∷ "UART2_RXD" ∷ [])
    ∷ muxctrl 0x120F0104 ("GPIO11_5" ∷ "UART2_TXD" ∷ [])
    ∷ muxctrl 0x120F0108 ("GPIO7_0" ∷ "RGMII0_RXDV" ∷ [])
    ∷ muxctrl 0x120F010C ("GPIO7_1" ∷ "RGMII0_RXD3" ∷ [])
    ∷ muxctrl 0x120F0110 ("GPIO7_2" ∷ "RGMII0_RXD2" ∷ [])
    ∷ muxctrl 0x120F0114 ("GPIO7_3" ∷ "RGMII0_RXD1" ∷ [])
    ∷ muxctrl 0x120F0118 ("GPIO7_4" ∷ "RGMII0_RXD0" ∷ [])
    ∷ muxctrl 0x120F011C ("GPIO7_5" ∷ "RGMII0_RXCK" ∷ [])
    ∷ muxctrl 0x120F0120 ("GPIO7_6" ∷ "RGMII0_TXEN" ∷ [])
    ∷ muxctrl 0x120F0124 ("GPIO7_7" ∷ "RGMII0_TXD3" ∷ [])
    ∷ muxctrl 0x120F0128 ("GPIO8_0" ∷ "RGMII0_TXD2" ∷ [])
    ∷ muxctrl 0x120F012C ("GPIO8_1" ∷ "RGMII0_TXD1" ∷ [])
    ∷ muxctrl 0x120F0130 ("GPIO8_2" ∷ "RGMII0_TXD0" ∷ [])
    ∷ muxctrl 0x120F0134 ("GPIO8_3" ∷ "RGMII0_TXCKOUT" ∷ "MII0_TXCK" ∷ "RMII0_CLK" ∷ [])
    ∷ muxctrl 0x120F0138 ("GPIO8_4" ∷ "RGMII0_CRS" ∷ [])
    ∷ muxctrl 0x120F013C ("GPIO8_5" ∷ "RGMII0_COL" ∷ [])
    ∷ muxctrl 0x120F0140 ("GPIO8_6" ∷ "RGMII0_RXER" ∷ [])
    ∷ muxctrl 0x120F0144 ("GPIO6_6" ∷ "EPHY0_CLK" ∷ [])
    ∷ muxctrl 0x120F0148 ("GPIO6_4" ∷ "EPHY0_RSTN" ∷ [])
    ∷ muxctrl 0x120F014C ("GPIO10_0" ∷ "MDCK0" ∷ [])
    ∷ muxctrl 0x120F0150 ("GPIO10_1" ∷ "MDIO0" ∷ [])
    ∷ muxctrl 0x120F0154 ("GPIO10_2" ∷ "IR_IN" ∷ [])
    ∷ muxctrl 0x120F0158 ("SFC_MOSI_IO0" ∷ "GPIO11_0" ∷ [])
    ∷ muxctrl 0x120F015C ("SFC_WP_IO2" ∷ "GPIO11_1" ∷ [])
    ∷ muxctrl 0x120F0160 ("SFC_MISO_IO1" ∷ "GPIO11_2" ∷ [])
    ∷ muxctrl 0x120F0164 ("GPIO13_0" ∷ "USB2_OVRCUR0" ∷ [])
    ∷ muxctrl 0x120F0168 ("GPIO13_1" ∷ "USB2_PWREN0" ∷ [])
    ∷ muxctrl 0x120F016C ("GPIO13_2" ∷ "USB2_OVRCUR1" ∷ [])
    ∷ muxctrl 0x120F0170 ("GPIO13_3" ∷ "USB2_PWREN1" ∷ [])
    ∷ muxctrl 0x120F0174 ("GPIO13_4" ∷ "HDMI_HOTPLUG" ∷ [])
    ∷ muxctrl 0x120F017C ("GPIO13_6" ∷ "HDMI_SDA" ∷ [])
    ∷ muxctrl 0x120F0180 ("GPIO13_7" ∷ "HDMI_SCL" ∷ [])
    ∷ muxctrl 0x120F0184 ("GPIO10_3" ∷ "SATA_LED_N0" ∷ [])
    ∷ muxctrl 0x120F0188 ("GPIO10_4" ∷ "SATA_LED_N1" ∷ [])
    ∷ []

pub rcv100_regs-proper : proper rcv100_regs ≡ true
unfolding rcv100_regs proper
rcv100_regs-proper = refl
