-- ===== src/Pinmux/Tables/Av200.antt =====
-- src/reginfo.c: the registers of `AV200regs`, in its order.
use ipctool.Base.{List, [], ◌∷◌, ◌++◌, ◌≡◌, refl, true}
use ipctool.Pinmux.Register.{Register, muxctrl, proper}

unfoldable pub av200_low : List Register
av200_low =
    muxctrl 0x12040000 ("GPIO1_0" ∷ "FLASH_TRIG" ∷ "SPI2_CSN1" ∷ "PWM4" ∷ [])
    ∷ muxctrl 0x12040004 ("GPIO1_1" ∷ "SHUTTER_TRIG" ∷ "reserved" ∷ "PWM5" ∷ [])
    ∷ muxctrl 0x12040008 ("GPIO0_0" ∷ "SENSOR1_CLK" ∷ [])
    ∷ muxctrl 0x1204000C ("SENSOR1_RSTN" ∷ "GPIO0_1" ∷ [])
    ∷ muxctrl 0x12040010 ("GPIO0_2" ∷ "SENSOR0_HS" ∷ "SENSOR1_HS" ∷ [])
    ∷ muxctrl 0x12040014 ("GPIO0_3" ∷ "SENSOR0_VS" ∷ "SENSOR1_VS" ∷ [])
    ∷ muxctrl 0x12040018 ("GPIO0_4" ∷ "SPI1_SCLK" ∷ "I2C1_SCL" ∷ "SPI1_3WIRE_CLK" ∷ [])
    ∷ muxctrl 0x1204001C ("GPIO0_5" ∷ "SPI1_SDO" ∷ "I2C1_SDA" ∷ "SPI1_3WIRE_DATA" ∷ [])
    ∷ muxctrl 0x12040020 ("GPIO0_6" ∷ "SPI1_SDI" ∷ [])
    ∷ muxctrl 0x12040024 ("GPIO0_7" ∷ "SPI1_CSN" ∷ "reserved" ∷ "SPI1_3WIRE_CSN" ∷ [])
    ∷ muxctrl 0x12040028 ("GPIO3_0" ∷ "VI1_HS" ∷ [])
    ∷ muxctrl 0x1204002C ("GPIO2_0" ∷ "VI1_VS" ∷ [])
    ∷ muxctrl 0x12040030 ("GPIO2_1" ∷ "VI1_CLK" ∷ [])
    ∷ muxctrl 0x12040034 ("GPIO2_2" ∷ "VI1_DATA0" ∷ [])
    ∷ muxctrl 0x12040038 ("GPIO2_3" ∷ "VI1_DATA1" ∷ [])
    ∷ muxctrl 0x1204003C ("GPIO2_4" ∷ "VI1_DATA2" ∷ [])
    ∷ muxctrl 0x12040040 ("GPIO2_5" ∷ "VI1_DATA3" ∷ [])
    ∷ muxctrl 0x12040044 ("GPIO2_6" ∷ "VI1_DATA4" ∷ [])
    ∷ muxctrl 0x12040048 ("GPIO2_7" ∷ "VI1_DATA5" ∷ [])
    ∷ muxctrl 0x1204004C ("GPIO1_2" ∷ "SPI2_SCLK" ∷ "I2S_BCLK_RX" ∷ [])
    ∷ muxctrl 0x12040050 ("GPIO1_3" ∷ "SPI2_SDO" ∷ "I2S_WS_RX" ∷ [])
    ∷ muxctrl 0x12040054 ("GPIO1_4" ∷ "SPI2_SDI" ∷ [])
    ∷ muxctrl 0x12040058 ("GPIO1_5" ∷ "SPI2_CSN0" ∷ [])
    ∷ muxctrl 0x1204005C ("GPIO1_6" ∷ "I2C2_SDA" ∷ [])
    ∷ muxctrl 0x12040060 ("GPIO1_7" ∷ "I2C2_SCL" ∷ [])
    ∷ muxctrl 0x12040064 ("GPIO3_1" ∷ "JTAG_TRSTN" ∷ "I2S_WS_TX" ∷ "PWM4" ∷ [])
    ∷ muxctrl 0x12040068 ("GPIO3_2" ∷ "JTAG_TCK" ∷ "I2S_MCLK" ∷ "PWM5" ∷ [])
    ∷ muxctrl 0x1204006C ("GPIO3_3" ∷ "JTAG_TMS" ∷ "I2S_BCLK_TX" ∷ "PWM6" ∷ [])
    ∷ muxctrl 0x12040070 ("GPIO3_4" ∷ "JTAG_TDO" ∷ "I2S_SD_TX" ∷ "PWM7" ∷ [])
    ∷ muxctrl 0x12040074 ("GPIO3_5" ∷ "JTAG_TDI" ∷ "I2S_SD_RX" ∷ "IR_IN" ∷ [])
    ∷ muxctrl 0x12040078 ("PMC_PWM0" ∷ "GPIO3_6" ∷ "reserved" ∷ "PWM0" ∷ [])
    ∷ muxctrl 0x1204007C ("PMC_PWM1" ∷ "GPIO3_7" ∷ "reserved" ∷ "PWM1" ∷ [])
    ∷ muxctrl 0x12040080 ("PMC_PWM2" ∷ "GPIO4_0" ∷ "reserved" ∷ "PWM2" ∷ [])
    ∷ muxctrl 0x12040084 ("PMC_PWM3" ∷ "GPIO4_1" ∷ "reserved" ∷ "PWM3" ∷ [])
    ∷ muxctrl 0x12040088 ("GPIO5_0" ∷ "UART1_RTSN" ∷ "UART3_RXD" ∷ "PWM3" ∷ [])
    ∷ muxctrl 0x1204008C ("GPIO5_1" ∷ "UART1_RXD" ∷ [])
    ∷ muxctrl 0x12040090 ("GPIO5_2" ∷ "UART1_CTSN" ∷ "UART3_TXD" ∷ [])
    ∷ muxctrl 0x12040094 ("GPIO5_3" ∷ "UART1_TXD" ∷ [])
    ∷ muxctrl 0x12040098 ("GPIO5_4" ∷ "UART2_RXD" ∷ "reserved" ∷ "PWM4" ∷ [])
    ∷ muxctrl 0x1204009C ("GPIO5_5" ∷ "UART2_TXD" ∷ "reserved" ∷ "PWM5" ∷ [])
    ∷ muxctrl 0x120400A0
        ("GPIO5_6" ∷ "UART2_RTSN" ∷ "UART4_RXD" ∷ "PWM6" ∷ "reserved" ∷ "TEMPER_DQ" ∷ [])
    ∷ muxctrl 0x120400A4 ("GPIO5_7" ∷ "UART2_CTSN" ∷ "UART4_TXD" ∷ "PWM7" ∷ [])
    ∷ muxctrl 0x120400A8 ("GPIO4_2" ∷ "USB3_PWREN" ∷ "PCIE_CLK_REQ_N" ∷ [])
    ∷ muxctrl 0x120400AC ("GPIO4_3" ∷ "SDIO0_CARD_POWER_EN" ∷ [])
    ∷ muxctrl 0x120400B0 ("GPIO6_0" ∷ "SDIO0_CARD_DETECT" ∷ [])
    ∷ muxctrl 0x120400B4 ("GPIO6_1" ∷ "SDIO0_CWPR" ∷ [])
    ∷ muxctrl 0x120400B8 ("GPIO6_2" ∷ "SDIO0_CCLK_OUT" ∷ [])
    ∷ muxctrl 0x120400BC ("GPIO6_3" ∷ "SDIO0_CCMD" ∷ [])
    ∷ muxctrl 0x120400C0 ("GPIO6_4" ∷ "SDIO0_CDATA0" ∷ [])
    ∷ muxctrl 0x120400C4 ("TEST_CLK" ∷ "SDIO0_CDATA1" ∷ "GPIO6_5" ∷ [])
    ∷ muxctrl 0x120400C8 ("GPIO6_6" ∷ "SDIO0_CDATA2" ∷ [])
    ∷ muxctrl 0x120400CC ("GPIO6_7" ∷ "SDIO0_CDATA3" ∷ [])
    ∷ muxctrl 0x120400D0 ("GPIO4_4" ∷ "SDIO1_CARD_POWER_EN" ∷ [])
    ∷ []

unfoldable pub av200_high : List Register
av200_high =
    muxctrl 0x120400D4 ("GPIO7_0" ∷ "SDIO1_CARD_DETECT" ∷ [])
    ∷ muxctrl 0x120400D8 ("GPIO7_1" ∷ "SDIO1_CWPR" ∷ [])
    ∷ muxctrl 0x120400DC ("GPIO7_2" ∷ "SDIO1_CCLK_OUT" ∷ [])
    ∷ muxctrl 0x120400E0 ("GPIO7_3" ∷ "SDIO1_CCMD" ∷ [])
    ∷ muxctrl 0x120400E4 ("GPIO7_4" ∷ "SDIO1_CDATA0" ∷ [])
    ∷ muxctrl 0x120400E8 ("GPIO7_5" ∷ "SDIO1_CDATA1" ∷ [])
    ∷ muxctrl 0x120400EC ("GPIO7_6" ∷ "SDIO1_CDATA2" ∷ [])
    ∷ muxctrl 0x120400F0 ("GPIO7_7" ∷ "SDIO1_CDATA3" ∷ [])
    ∷ muxctrl 0x120400F4 ("GPIO4_5" ∷ "USB2_PWREN" ∷ [])
    ∷ muxctrl 0x120400F8 ("GPIO4_6" ∷ "VO_CLK" ∷ [])
    ∷ muxctrl 0x120400FC ("GPIO8_0" ∷ "VO_DATA0" ∷ [])
    ∷ muxctrl 0x12040100 ("GPIO8_1" ∷ "VO_DATA1" ∷ [])
    ∷ muxctrl 0x12040104 ("GPIO8_2" ∷ "VO_DATA2" ∷ [])
    ∷ muxctrl 0x12040108 ("GPIO8_3" ∷ "VO_DATA3" ∷ [])
    ∷ muxctrl 0x1204010C ("GPIO8_4" ∷ "VO_DATA4" ∷ [])
    ∷ muxctrl 0x12040110 ("GPIO8_5" ∷ "VO_DATA5" ∷ [])
    ∷ muxctrl 0x12040114 ("GPIO8_6" ∷ "VO_DATA6" ∷ [])
    ∷ muxctrl 0x12040118 ("GPIO8_7" ∷ "VO_DATA7" ∷ [])
    ∷ muxctrl 0x1204011C ("GPIO9_0" ∷ "VO_DATA8" ∷ [])
    ∷ muxctrl 0x12040120 ("GPIO9_1" ∷ "VO_DATA9" ∷ "reserved" ∷ "VO_VS" ∷ [])
    ∷ muxctrl 0x12040124 ("GPIO9_2" ∷ "VO_DATA10" ∷ "reserved" ∷ "VO_HS" ∷ [])
    ∷ muxctrl 0x12040128 ("GPIO9_3" ∷ "VO_DATA11" ∷ "reserved" ∷ "VO_DE" ∷ [])
    ∷ muxctrl 0x1204012C ("GPIO9_4" ∷ "VO_DATA12" ∷ "SPI3_SCLK" ∷ "I2C3_SCL" ∷ [])
    ∷ muxctrl 0x12040130 ("GPIO9_5" ∷ "VO_DATA13" ∷ "SPI3_SDO" ∷ "I2C3_SDA" ∷ [])
    ∷ muxctrl 0x12040134 ("GPIO9_6" ∷ "VO_DATA14" ∷ "SPI3_SDI" ∷ [])
    ∷ muxctrl 0x12040138 ("GPIO9_7" ∷ "VO_DATA15" ∷ "SPI3_CSN" ∷ [])
    ∷ muxctrl 0x1204013C ("GPIO10_0" ∷ "VO_VS" ∷ "RGMII_TX_EN" ∷ [])
    ∷ muxctrl 0x12040140 ("GPIO10_1" ∷ "VO_DATA18" ∷ "RGMII_TX_CLK" ∷ "RMII_CLK" ∷ [])
    ∷ muxctrl 0x12040144 ("GPIO10_2" ∷ "VO_DATA16" ∷ "RGMII_TXD0" ∷ [])
    ∷ muxctrl 0x12040148 ("GPIO10_3" ∷ "VO_DATA20" ∷ "RGMII_TXD1" ∷ [])
    ∷ muxctrl 0x1204014C ("GPIO10_4" ∷ "VO_DATA17" ∷ "RGMII_TXD2" ∷ [])
    ∷ muxctrl 0x12040150 ("GPIO10_5" ∷ "VO_HS" ∷ "RGMII_TXD3" ∷ [])
    ∷ muxctrl 0x12040154 ("GPIO10_6" ∷ "VO_DATA19" ∷ "RGMII_RX_CLK" ∷ [])
    ∷ muxctrl 0x12040158 ("GPIO10_7" ∷ "VO_DATA23" ∷ "RGMII_RX_DV" ∷ [])
    ∷ muxctrl 0x1204015C ("GPIO11_0" ∷ "VO_DATA22" ∷ "RGMII_RXD0" ∷ [])
    ∷ muxctrl 0x12040160 ("GPIO11_1" ∷ "SPI3_SCLK" ∷ "RGMII_RXD1" ∷ "I2C3_SCL" ∷ [])
    ∷ muxctrl 0x12040164 ("GPIO11_2" ∷ "VO_DE" ∷ "RGMII_RXD2" ∷ [])
    ∷ muxctrl 0x12040168 ("GPIO11_3" ∷ "VO_DATA21" ∷ "RGMII_RXD3" ∷ [])
    ∷ muxctrl 0x1204016C ("GPIO11_4" ∷ "reserved" ∷ "EPHY_RSTN" ∷ [])
    ∷ muxctrl 0x12040170 ("GPIO11_5" ∷ "SPI3_SDI" ∷ "EPHY_CLK" ∷ [])
    ∷ muxctrl 0x12040174 ("GPIO11_6" ∷ "SPI3_CSN" ∷ "MDCK" ∷ [])
    ∷ muxctrl 0x12040178 ("GPIO11_7" ∷ "SPI3_SDO" ∷ "MDIO" ∷ "I2C3_SDA" ∷ [])
    ∷ muxctrl 0x1204017C ("GPIO12_0" ∷ "SENSOR0_CLK" ∷ [])
    ∷ muxctrl 0x12040180 ("SENSOR0_RSTN" ∷ "GPIO12_1" ∷ [])
    ∷ muxctrl 0x12040184 ("GPIO12_2" ∷ "SENSOR0_HS" ∷ "SENSOR1_HS" ∷ [])
    ∷ muxctrl 0x12040188 ("GPIO12_3" ∷ "SENSOR0_VS" ∷ "SENSOR1_VS" ∷ [])
    ∷ muxctrl 0x1204018C ("GPIO12_4" ∷ "SPI0_SCLK" ∷ "I2C0_SCL" ∷ "SPI0_3WIRE_CLK" ∷ [])
    ∷ muxctrl 0x12040190 ("GPIO12_5" ∷ "SPI0_SDO" ∷ "I2C0_SDA" ∷ "SPI0_3WIRE_DATA" ∷ [])
    ∷ muxctrl 0x12040194 ("GPIO12_6" ∷ "SPI0_SDI" ∷ [])
    ∷ muxctrl 0x12040198 ("GPIO12_7" ∷ "SPI0_CSN" ∷ "reserved" ∷ "SPI0_3WIRE_CSN" ∷ [])
    ∷ muxctrl 0x120401D8 ("SAR_ADC_CH1" ∷ "GPIO16_1" ∷ [])
    ∷ muxctrl 0x120401DC ("SAR_ADC_CH2" ∷ "GPIO16_2" ∷ [])
    ∷ muxctrl 0x120401E0 ("SAR_ADC_CH3" ∷ "GPIO16_3" ∷ "reserved" ∷ "TEMPER_DQ" ∷ [])
    ∷ []

unfoldable pub av200_regs : List Register
unfolding av200_low av200_high
av200_regs = av200_low ++ av200_high

pub av200_regs-proper : proper av200_regs ≡ true
unfolding av200_regs proper
av200_regs-proper = refl
