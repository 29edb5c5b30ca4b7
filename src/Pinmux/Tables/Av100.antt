-- ===== src/Pinmux/Tables/Av100.antt =====
-- src/reginfo.c: the registers of `AV100regs`, in its order.
use ipctool.Base.{List, [], ◌∷◌, ◌++◌, ◌≡◌, refl, true}
use ipctool.Pinmux.Register.{Register, muxctrl, proper}

av100_low : List Register
av100_low =
    muxctrl 0x200f0000 ("GPIO0_5" ∷ "SENSOR_CLK" ∷ [])
    ∷ muxctrl 0x200f0004 ("GPIO0_6" ∷ "FLASH_TRIG" ∷ "SPI1_CSN1" ∷ [])
    ∷ muxctrl 0x200f0008 ("GPIO0_7" ∷ "SHUTTER_TRIG" ∷ "SPI1_CSN2" ∷ [])
    ∷ muxctrl 0x200f000c ("GPIO1_0" ∷ "VO_CLK" ∷ [])
    ∷ muxctrl 0x200f0010 ("GPIO6_0" ∷ "VO_DAT15" ∷ [])
    ∷ muxctrl 0x200f0014 ("GPIO6_1" ∷ "VO_DAT14" ∷ [])
    ∷ muxctrl 0x200f0018 ("GPIO6_2" ∷ "VO_DAT13" ∷ [])
    ∷ muxctrl 0x200f001c ("GPIO6_3" ∷ "VO_DAT12" ∷ [])
    ∷ muxctrl 0x200f0020 ("GPIO6_4" ∷ "VO_DAT11" ∷ "SFC_NAND_BOOT_PIN2" ∷ [])
    ∷ muxctrl 0x200f0024 ("GPIO6_5" ∷ "VO_DAT10" ∷ "SFC_NAND_BOOT_PIN1" ∷ [])
    ∷ muxctrl 0x200f0028 ("GPIO6_6" ∷ "VO_DAT9" ∷ "SFC_NAND_BOOT_PIN0" ∷ [])
    ∷ muxctrl 0x200f002c ("GPIO6_7" ∷ "VO_DAT8" ∷ [])
    ∷ muxctrl 0x200f0030 ("GPIO7_0" ∷ "VO_DAT7" ∷ [])
    ∷ muxctrl 0x200f0034 ("GPIO7_1" ∷ "VO_DAT6" ∷ [])
    ∷ muxctrl 0x200f0038 ("GPIO7_2" ∷ "VO_DAT5" ∷ [])
    ∷ muxctrl 0x200f003c ("GPIO7_3" ∷ "VO_DAT4" ∷ [])
    ∷ muxctrl 0x200f0040 ("GPIO7_4" ∷ "VO_DAT3" ∷ "SFC_DEVICE_MODE" ∷ [])
    ∷ muxctrl 0x200f0044 ("GPIO7_5" ∷ "VO_DAT2" ∷ [])
    ∷ muxctrl 0x200f0048 ("GPIO7_6" ∷ "VO_DAT1" ∷ "BOOTROM_SEL" ∷ [])
    ∷ muxctrl 0x200f004c ("GPIO7_7" ∷ "VO_DAT0" ∷ "BOOT_SEL" ∷ [])
    ∷ muxctrl 0x200f0050 ("GPIO8_0" ∷ "SPI0_SCLK" ∷ "I2C0_SCL" ∷ [])
    ∷ muxctrl 0x200f0054 ("GPIO8_1" ∷ "SPI0_SDO" ∷ "I2C0_SDA" ∷ [])
    ∷ muxctrl 0x200f0058 ("GPIO8_2" ∷ "SPI0_SDI" ∷ [])
    ∷ muxctrl 0x200f005c ("GPIO8_3" ∷ "SPI0_CSN" ∷ [])
    ∷ muxctrl 0x200f0060 ("GPIO8_4" ∷ "SPI1_SCLK" ∷ "I2C1_SCL" ∷ [])
    ∷ muxctrl 0x200f0064 ("GPIO8_5" ∷ "SPI1_SDO" ∷ "I2C1_SDA" ∷ [])
    ∷ muxctrl 0x200f0068 ("GPIO8_6" ∷ "SPI1_SDI" ∷ [])
    ∷ muxctrl 0x200f006c ("GPIO8_7" ∷ "SPI1_CSN0" ∷ [])
    ∷ muxctrl 0x200f0070 ("GPIO9_0" ∷ "I2C2_SDA" ∷ [])
    ∷ muxctrl 0x200f0074 ("GPIO9_1" ∷ "I2C2_SCL" ∷ [])
    ∷ muxctrl 0x200f0078 ("GPIO9_2" ∷ "UART1_RTSN" ∷ "UART3_RXD" ∷ [])
    ∷ muxctrl 0x200f007c ("GPIO9_3" ∷ "UART1_RXD" ∷ [])
    ∷ muxctrl 0x200f0080 ("GPIO9_4" ∷ "UART1_CTSN" ∷ "UART3_TXD" ∷ [])
    ∷ muxctrl 0x200f0084 ("GPIO9_5" ∷ "UART1_TXD" ∷ [])
    ∷ muxctrl 0x200f0088 ("GPIO9_6" ∷ "UART2_RXD" ∷ "I2S_BCLK_RX" ∷ [])
    ∷ muxctrl 0x200f008c ("GPIO9_7" ∷ "UART2_TXD" ∷ "I2S_WS_RX" ∷ [])
    ∷ muxctrl 0x200f0090 ("GPIO10_0" ∷ "JTAG_TRSTN" ∷ "I2S_MCLK" ∷ [])
    ∷ muxctrl 0x200f0094 ("GPIO10_1" ∷ "JTAG_TCK" ∷ "I2S_BCLK_TX" ∷ [])
    ∷ muxctrl 0x200f0098 ("GPIO10_2" ∷ "JTAG_TMS" ∷ "I2S_WS_TX" ∷ [])
    ∷ muxctrl 0x200f009c ("GPIO10_3" ∷ "JTAG_TDO" ∷ "I2S_SD_RX" ∷ [])
    ∷ muxctrl 0x200f00a0 ("GPIO10_4" ∷ "JTAG_TDI" ∷ "I2S_SD_TX" ∷ [])
    ∷ muxctrl 0x200f00a4 ("GPIO10_5" ∷ "IR_IN" ∷ "PWM4" ∷ [])
    ∷ muxctrl 0x200f00a8 ("GPIO10_6" ∷ "USB_OVRCUR" ∷ [])
    ∷ muxctrl 0x200f00ac ("GPIO10_7" ∷ "USB_PWREN" ∷ [])
    ∷ muxctrl 0x200f00b0 ("GPIO2_0" ∷ "SDIO0_CCLK_OUT" ∷ "I2S_MCLK" ∷ [])
    ∷ muxctrl 0x200f00b4 ("GPIO2_1" ∷ "SDIO0_CARD_POWER_EN" ∷ "I2S_BCLK_TX" ∷ [])
    ∷ muxctrl 0x200f00b8 ("GPIO2_2" ∷ "SDIO0_CARD_DETECT" ∷ "I2S_WS_TX" ∷ [])
    ∷ muxctrl 0x200f00bc ("GPIO2_3" ∷ "SDIO0_CWPR" ∷ "I2S_SD_TX" ∷ [])
    ∷ muxctrl 0x200f00c0 ("GPIO2_4" ∷ "SDIO0_CCMD" ∷ "I2S_BCLK_RX" ∷ [])
    ∷ muxctrl 0x200f00c4 ("GPIO2_5" ∷ "SDIO0_CDATA0" ∷ "I2S_WS_RX" ∷ [])
    ∷ muxctrl 0x200f00c8 ("GPIO2_6" ∷ "SDIO0_CDATA1" ∷ "I2S_SD_RX" ∷ [])
    ∷ muxctrl 0x200f00cc ("GPIO2_7" ∷ "SDIO0_CDATA2" ∷ [])
    ∷ muxctrl 0x200f00d0 ("GPIO1_1" ∷ "SDIO0_CDATA3" ∷ [])
    ∷ muxctrl 0x200f00d4 ("SENSOR_RSTN" ∷ "GPIO0_0" ∷ "TEMPER_DQ" ∷ [])
    ∷ muxctrl 0x200f00d8 ("GPIO0_1" ∷ "TEMPER_DQ" ∷ [])
    ∷ muxctrl 0x200f00dc ("GPIO0_2" ∷ "PWM5" ∷ "TEMPER_DQ" ∷ [])
    ∷ muxctrl 0x200f00e0 ("GPIO0_3" ∷ "PWM6" ∷ "TEMPER_DQ" ∷ [])
    ∷ muxctrl 0x200f00e4 ("GPIO0_4" ∷ "PWM7" ∷ "TEMPER_DQ" ∷ [])
    ∷ muxctrl 0x200f00e8 ("GPIO11_0" ∷ "SDIO1_CCLK_OUT" ∷ [])
    ∷ muxctrl 0x200f00ec ("GPIO11_1" ∷ "SDIO1_CARD_POWER_EN" ∷ [])
    ∷ muxctrl 0x200f00f0 ("GPIO11_2" ∷ "SDIO1_CARD_DETECT" ∷ [])
    ∷ muxctrl 0x200f00f4 ("GPIO11_3" ∷ "SDIO1_CWPR" ∷ [])
    ∷ []

av100_high : List Register
av100_high =
    muxctrl 0x200f00f8 ("GPIO11_4" ∷ "SDIO1_CCMD" ∷ [])
    ∷ muxctrl 0x200f00fc (
        "GPIO11_5" ∷ "SDIO1_CDATA0" ∷ "CLK_TEST_OUT0" ∷ "CLK_TEST_OUT1" ∷ "CLK_TEST_OUT2"
        ∷ "CLK_TEST_OUT3" ∷ "RTC_TEST_CLK" ∷ "OSC_TEST_CLK" ∷ [])
    ∷ muxctrl 0x200f0100 (
        "PLL_TEST_OUT0" ∷ "SDIO1_CDATA1" ∷ "PLL_TEST_OUT1" ∷ "PLL_TEST_OUT2" ∷ "PLL_TEST_OUT3"
        ∷ "GPIO11_6" ∷ [])
    ∷ muxctrl 0x200f0104 ("GPIO11_7" ∷ "SDIO1_CDATA2" ∷ [])
    ∷ muxctrl 0x200f0108 ("GPIO1_2" ∷ "SDIO1_CDATA3" ∷ [])
    ∷ muxctrl 0x200f010c ("NF_DQ0" ∷ "GPIO5_0" ∷ [])
    ∷ muxctrl 0x200f0110 ("NF_DQ1" ∷ "GPIO5_1" ∷ [])
    ∷ muxctrl 0x200f0114 ("NF_DQ2" ∷ "GPIO5_2" ∷ [])
    ∷ muxctrl 0x200f0118 ("NF_DQ3" ∷ "GPIO5_3" ∷ [])
    ∷ muxctrl 0x200f011c ("NF_DQ4" ∷ "GPIO5_4" ∷ [])
    ∷ muxctrl 0x200f0120 ("NF_DQ5" ∷ "GPIO5_5" ∷ [])
    ∷ muxctrl 0x200f0124 ("NF_DQ6" ∷ "GPIO5_6" ∷ [])
    ∷ muxctrl 0x200f0128 ("NF_DQ7" ∷ "GPIO5_7" ∷ [])
    ∷ muxctrl 0x200f012c ("NF_RDY0" ∷ "GPIO3_0" ∷ [])
    ∷ muxctrl 0x200f0130 ("NF_RDY1" ∷ "GPIO3_1" ∷ [])
    ∷ muxctrl 0x200f0134 ("NF_REN" ∷ "GPIO3_2" ∷ [])
    ∷ muxctrl 0x200f0138 ("NF_CSN0" ∷ "GPIO3_3" ∷ [])
    ∷ muxctrl 0x200f013c ("NF_CSN1" ∷ "GPIO3_4" ∷ "SFC_CSN0" ∷ [])
    ∷ muxctrl 0x200f0140 ("NF_CLE" ∷ "GPIO3_5" ∷ [])
    ∷ muxctrl 0x200f0144 ("NF_ALE" ∷ "GPIO3_6" ∷ [])
    ∷ muxctrl 0x200f0148 ("NF_WEN" ∷ "GPIO3_7" ∷ [])
    ∷ muxctrl 0x200f014c ("PWM0" ∷ "GPIO14_0" ∷ "PMC_I2C_SCL" ∷ [])
    ∷ muxctrl 0x200f0150 ("PWM1" ∷ "GPIO14_1" ∷ "PMC_I2C_SDA" ∷ [])
    ∷ muxctrl 0x200f0154 ("PWM2" ∷ "GPIO14_2" ∷ [])
    ∷ muxctrl 0x200f0158 ("PWM3" ∷ "GPIO14_3" ∷ [])
    ∷ muxctrl 0x200f015c ("SAR_ADC_CH0" ∷ "GPIO1_6" ∷ [])
    ∷ muxctrl 0x200f0160 ("SAR_ADC_CH1" ∷ "GPIO1_7" ∷ [])
    ∷ muxctrl 0x200f0164 ("GPIO14_4" ∷ "EPHY_CLK" ∷ [])
    ∷ muxctrl 0x200f0168 ("GPIO14_5" ∷ "MDCK" ∷ [])
    ∷ muxctrl 0x200f016c ("GPIO14_6" ∷ "MDIO" ∷ [])
    ∷ muxctrl 0x200f0170 ("GPIO14_7" ∷ "RGMII_TX_EN" ∷ [])
    ∷ muxctrl 0x200f0174 ("GPIO4_0" ∷ "RGMII_TX_CLK" ∷ "RMII_CLK_OUT/MII_TX_CLK" ∷ [])
    ∷ muxctrl 0x200f0178 ("GPIO4_1" ∷ "RGMII_TXD0" ∷ [])
    ∷ muxctrl 0x200f017c ("GPIO4_2" ∷ "RGMII_TXD1" ∷ [])
    ∷ muxctrl 0x200f0180 ("GPIO4_3" ∷ "RGMII_TXD2" ∷ [])
    ∷ muxctrl 0x200f0184 ("GPIO4_4" ∷ "RGMII_TXD3" ∷ [])
    ∷ muxctrl 0x200f0188 ("GPIO4_5" ∷ "RGMII_RX_CLK" ∷ [])
    ∷ muxctrl 0x200f018c ("GPIO4_6" ∷ "RGMII_RX_DV" ∷ [])
    ∷ muxctrl 0x200f0190 ("GPIO4_7" ∷ "RGMII_RXD0" ∷ [])
    ∷ muxctrl 0x200f0194 ("GPIO1_3" ∷ "RGMII_RXD1" ∷ [])
    ∷ muxctrl 0x200f0198 ("GPIO1_4" ∷ "RGMII_RXD2" ∷ [])
    ∷ muxctrl 0x200f019c ("GPIO1_5" ∷ "RGMII_RXD3" ∷ [])
    ∷ muxctrl 0x200f01a0 ("GPIO15_0" ∷ "VI_CLK" ∷ [])
    ∷ muxctrl 0x200f01a4 ("GPIO15_1" ∷ "VI_HS" ∷ [])
    ∷ muxctrl 0x200f01a8 ("GPIO15_2" ∷ "VI_VS" ∷ [])
    ∷ muxctrl 0x200f01ac ("GPIO12_0" ∷ "VI_DAT15" ∷ "I2S_MCLK" ∷ [])
    ∷ muxctrl 0x200f01b0 ("GPIO12_1" ∷ "VI_DAT14" ∷ "I2S_BCLK_TX" ∷ [])
    ∷ muxctrl 0x200f01b4 ("GPIO12_2" ∷ "VI_DAT13" ∷ "I2S_WS_TX" ∷ [])
    ∷ muxctrl 0x200f01b8 ("GPIO12_3" ∷ "VI_DAT12" ∷ "I2S_SD_TX" ∷ [])
    ∷ muxctrl 0x200f01bc ("GPIO12_4" ∷ "VI_DAT11" ∷ "I2S_BCLK_RX" ∷ [])
    ∷ muxctrl 0x200f01c0 ("GPIO12_5" ∷ "VI_DAT10" ∷ "I2S_WS_RX" ∷ [])
    ∷ muxctrl 0x200f01c4 ("GPIO12_6" ∷ "VI_DAT9" ∷ "I2S_SD_RX" ∷ [])
    ∷ muxctrl 0x200f01c8 ("GPIO12_7" ∷ "VI_DAT8" ∷ [])
    ∷ muxctrl 0x200f01cc ("GPIO13_0" ∷ "VI_DAT7" ∷ [])
    ∷ muxctrl 0x200f01d0 ("GPIO13_1" ∷ "VI_DAT6" ∷ [])
    ∷ muxctrl 0x200f01d4 ("GPIO13_2" ∷ "VI_DAT5" ∷ [])
    ∷ muxctrl 0x200f01d8 ("GPIO13_3" ∷ "VI_DAT4" ∷ [])
    ∷ muxctrl 0x200f01dc ("GPIO13_4" ∷ "VI_DAT3" ∷ [])
    ∷ muxctrl 0x200f01e0 ("GPIO13_5" ∷ "VI_DAT2" ∷ [])
    ∷ muxctrl 0x200f01e4 ("GPIO13_6" ∷ "VI_DAT1" ∷ [])
    ∷ muxctrl 0x200f01e8 ("GPIO13_7" ∷ "VI_DAT0" ∷ "PWM4" ∷ [])
    ∷ []

pub av100_regs : List Register
unfolding av100_low av100_high
av100_regs = av100_low ++ av100_high

pub av100_regs-proper : proper av100_regs ≡ true
unfolding av100_regs proper
av100_regs-proper = refl
