-- ===== src/Pinmux/Tables/Ev20x.antt =====
-- src/reginfo.c: the registers of `EV20Xregs`, in its order.
use ipctool.Base.{List, [], ◌∷◌, ◌≡◌, refl, true}
use ipctool.Pinmux.Register.{Register, muxctrl, proper}

pub ev20x_regs : List Register
ev20x_regs =
    muxctrl 0x200f0000 ("GPIO0_4" ∷ "SENSOR_CLK" ∷ [])
    ∷ muxctrl 0x200f0004 ("SENSOR_RSTN" ∷ "GPIO0_5" ∷ [])
    ∷ muxctrl 0x200f0008
        ("GPIO0_6" ∷ "FLASH_TRIG" ∷ "SFC_EMMC_BOOT_MODE" ∷ "SPI1_CSN1" ∷ "VI_VS_BT1120" ∷ [])
    ∷ muxctrl 0x200f000c ("GPIO0_7" ∷ "SHUTTER_TRIG" ∷ "SFC_DEVICE_MODE" ∷ "VI_HS_BT1120" ∷ [])
    ∷ muxctrl 0x200f0010 ("GPIO2_0" ∷ "RMII_CLK" ∷ "VO_CLK" ∷ "SDIO1_CCLK_OUT" ∷ [])
    ∷ muxctrl 0x200f0014 ("GPIO2_1" ∷ "RMII_TX_EN" ∷ "VO_VS" ∷ "SDIO1_CARD_DETECT" ∷ [])
    ∷ muxctrl 0x200f0018 ("GPIO2_2" ∷ "RMII_TXD0" ∷ "VO_DATA5" ∷ "SDIO1_CWPR" ∷ [])
    ∷ muxctrl 0x200f001c ("GPIO2_3" ∷ "RMII_TXD1" ∷ "VO_DE" ∷ "SDIO1_CDATA1" ∷ [])
    ∷ muxctrl 0x200f0020 ("GPIO2_4" ∷ "RMII_RX_DV" ∷ "VO_DATA7" ∷ "SDIO1_CDATA0" ∷ [])
    ∷ muxctrl 0x200f0024 ("GPIO2_5" ∷ "RMII_RXD0" ∷ "VO_DATA2" ∷ "SDIO1_CDATA3" ∷ [])
    ∷ muxctrl 0x200f0028 ("GPIO2_6" ∷ "RMII_RXD1" ∷ "VO_DATA3" ∷ "SDIO1_CCMD" ∷ [])
    ∷ muxctrl 0x200f002c
        ("GPIO2_7" ∷ "EPHY_RST" ∷ "BOOT_SEL" ∷ "VO_HS" ∷ "SDIO1_CARD_POWER_EN" ∷ [])
    ∷ muxctrl 0x200f0030 ("GPIO0_3" ∷ "SPI1_CSN1" ∷ "VO_DATA0" ∷ [])
    ∷ muxctrl 0x200f0034 ("GPIO3_0" ∷ "EPHY_CLK" ∷ "VO_DATA1" ∷ "SDIO1_CDATA2" ∷ [])
    ∷ muxctrl 0x200f0038 ("GPIO3_1" ∷ "MDCK" ∷ "BOOTROM_SEL" ∷ "VO_DATA6" ∷ [])
    ∷ muxctrl 0x200f003c ("GPIO3_2" ∷ "MDIO" ∷ "VO_DATA4" ∷ [])
    ∷ muxctrl 0x200f0040 ("GPIO3_3" ∷ "SPI0_SCLK" ∷ "I2C0_SCL" ∷ [])
    ∷ muxctrl 0x200f0044 ("GPIO3_4" ∷ "SPI0_SDO" ∷ "I2C0_SDA" ∷ [])
    ∷ muxctrl 0x200f0048 ("GPIO3_5" ∷ "SPI0_SDI" ∷ [])
    ∷ muxctrl 0x200f004c ("GPIO3_6" ∷ "SPI0_CSN" ∷ [])
    ∷ muxctrl 0x200f0050 ("GPIO3_7" ∷ "SPI1_SCLK" ∷ "I2C1_SCL" ∷ [])
    ∷ muxctrl 0x200f0054 ("GPIO4_0" ∷ "SPI1_SDO" ∷ "I2C1_SDA" ∷ [])
    ∷ muxctrl 0x200f0058 ("GPIO4_1" ∷ "SPI1_SDI" ∷ [])
    ∷ muxctrl 0x200f005c ("GPIO4_2" ∷ "SPI1_CSN0" ∷ [])
    ∷ muxctrl 0x200f0060 ("GPIO4_3" ∷ "I2C2_SDA" ∷ [])
    ∷ muxctrl 0x200f0064 ("GPIO4_4" ∷ "I2C2_SCL" ∷ [])
    ∷ muxctrl 0x200f0068 ("GPIO4_5" ∷ "USB_OVRCUR" ∷ [])
    ∷ muxctrl 0x200f006c ("GPIO4_6" ∷ "USB_PWREN" ∷ [])
    ∷ muxctrl 0x200f0070 ("GPIO0_0" ∷ "IR_IN" ∷ "TEMPER_DQ" ∷ [])
    ∷ muxctrl 0x200f0074 ("GPIO0_1" ∷ "TEMPER_DQ" ∷ [])
    ∷ muxctrl 0x200f0078 ("GPIO0_2" ∷ "TEMPER_DQ" ∷ [])
    ∷ muxctrl 0x200f007c ("GPIO1_0" ∷ "VI_DATA13" ∷ "I2S_BCLK_TX" ∷ "PWM0" ∷ [])
    ∷ muxctrl 0x200f0080 ("GPIO1_1" ∷ "VI_DATA10" ∷ "I2S_SD_TX" ∷ "UART1_TXD" ∷ [])
    ∷ muxctrl 0x200f0084 ("GPIO1_2" ∷ "VI_DATA12" ∷ "I2S_MCLK" ∷ "UART1_CTSN" ∷ [])
    ∷ muxctrl 0x200f0088 ("GPIO1_3" ∷ "VI_DATA11" ∷ "I2S_WS_TX" ∷ "UART2_RXD" ∷ [])
    ∷ muxctrl 0x200f008c ("GPIO1_4" ∷ "VI_DATA15" ∷ "VI_VS_SEN" ∷ "I2S_WS_RX" ∷ "UART1_RXD" ∷ [])
    ∷ muxctrl 0x200f0090 ("GPIO1_5" ∷ "VI_DATA14" ∷ "VI_HS_SEN" ∷ "I2S_BCLK_RX" ∷ "UART1_RTSN" ∷ [])
    ∷ muxctrl 0x200f0094 ("GPIO1_6" ∷ "VI_DATA9" ∷ "I2S_SD_RX" ∷ "UART2_TXD" ∷ [])
    ∷ muxctrl 0x200f0098 ("GPIO1_7" ∷ "SDIO0_CARD_POWER_EN" ∷ [])
    ∷ muxctrl 0x200f009c ("GPIO4_7" ∷ "SDIO0_CARD_DETECT" ∷ [])
    ∷ muxctrl 0x200f00a0 ("GPIO5_0" ∷ "SDIO0_CWPR" ∷ [])
    ∷ muxctrl 0x200f00a4 ("GPIO5_1" ∷ "SDIO0_CCLK_OUT" ∷ [])
    ∷ muxctrl 0x200f00a8 ("GPIO5_2" ∷ "SDIO0_CCMD" ∷ [])
    ∷ muxctrl 0x200f00ac ("GPIO5_3" ∷ "SDIO0_CDATA0" ∷ [])
    ∷ muxctrl 0x200f00b0 ("TEST_CLK" ∷ "SDIO0_CDATA1" ∷ "GPIO5_4" ∷ [])
    ∷ muxctrl 0x200f00b4 ("GPIO5_5" ∷ "SDIO0_CDATA2" ∷ [])
    ∷ muxctrl 0x200f00b8 ("GPIO5_6" ∷ "SDIO0_CDATA3" ∷ [])
    ∷ muxctrl 0x200f00bc ("GPIO5_7" ∷ "EMMC_DATA6" ∷ "I2S_SD_TX" ∷ "UART1_RTSN" ∷ [])
    ∷ muxctrl 0x200f00c0 ("GPIO6_0" ∷ "EMMC_DATA5" ∷ "I2S_WS_TX" ∷ "UART1_RXD" ∷ [])
    ∷ muxctrl 0x200f00c4 ("GPIO6_1" ∷ "EMMC_DATA7" ∷ "I2S_MCLK" ∷ "UART1_CTSN" ∷ [])
    ∷ muxctrl 0x200f00c8 ("GPIO6_2" ∷ "EMMC_DS" ∷ "I2S_SD_RX" ∷ "UART1_TXD" ∷ [])
    ∷ muxctrl 0x200f00cc ("GPIO6_3" ∷ "EMMC_DATA1" ∷ "UART2_RXD" ∷ [])
    ∷ muxctrl 0x200f00d0 ("GPIO6_4" ∷ "EMMC_DATA2" ∷ "I2S_BCLK_TX" ∷ "UART2_TXD" ∷ [])
    ∷ muxctrl 0x200f00d4 ("GPIO6_5" ∷ "JTAG_TRSTN" ∷ "SPI1_CSN1" ∷ "I2S_MCLK" ∷ [])
    ∷ muxctrl 0x200f00d8 ("GPIO6_6" ∷ "JTAG_TCK" ∷ "SPI1_SCLK" ∷ "I2S_WS_TX" ∷ "I2C1_SCL" ∷ [])
    ∷ muxctrl 0x200f00dc ("GPIO6_7" ∷ "JTAG_TMS" ∷ "SPI1_CSN0" ∷ "I2S_SD_TX" ∷ [])
    ∷ muxctrl 0x200f00e0 ("GPIO7_0" ∷ "JTAG_TDO" ∷ "SPI1_SDO" ∷ "I2S_SD_RX" ∷ "I2C1_SDA" ∷ [])
    ∷ muxctrl 0x200f00e4 ("GPIO7_1" ∷ "JTAG_TDI" ∷ "SPI1_SDI" ∷ "I2S_BCLK_TX" ∷ [])
    ∷ muxctrl 0x200f00e8 ("PMC_PWM" ∷ "GPIO7_2" ∷ "PWM0" ∷ [])
    ∷ muxctrl 0x200f00ec ("PWM1" ∷ "GPIO7_3" ∷ [])
    ∷ muxctrl 0x200f00f0 ("PWM2" ∷ "GPIO7_4" ∷ "SPI1_CSN1" ∷ [])
    ∷ muxctrl 0x200f00f4 ("PWM3" ∷ "GPIO7_5" ∷ [])
    ∷ muxctrl 0x200f00f8 ("SAR_ADC_CH0" ∷ "GPIO7_6" ∷ [])
    ∷ muxctrl 0x200f00fc ("SAR_ADC_CH1" ∷ "GPIO7_7" ∷ [])
    ∷ muxctrl 0x200f0100 ("SAR_ADC_CH2" ∷ "GPIO8_0" ∷ [])
    ∷ muxctrl 0x200f0104 ("SAR_ADC_CH3" ∷ "GPIO8_1" ∷ [])
    ∷ []

pub ev20x_regs-proper : proper ev20x_regs ≡ true
unfolding ev20x_regs proper
ev20x_regs-proper = refl
