-- ===== src/Pinmux/Tables/Cv100.antt =====
-- src/reginfo.c: the registers of `CV100regs`, in its order.
use ipctool.Base.{List, [], ◌∷◌, ◌≡◌, refl, true}
use ipctool.Pinmux.Register.{Register, muxctrl, proper}

unfoldable pub cv100_regs : List Register
cv100_regs =
    muxctrl 0x200f0000 ("GPIO1_0" ∷ "SHUTTER_TRIG" ∷ [])
    ∷ muxctrl 0x200f0004 ("GPIO1_1" ∷ "SDIO_CCLK_OUT" ∷ [])
    ∷ muxctrl 0x200f0008 ("GPIO1_2" ∷ "SENSOR_CLK" ∷ [])
    ∷ muxctrl 0x200f000c ("GPIO1_4" ∷ "SPI0_SCLK" ∷ [])
    ∷ muxctrl 0x200f0010 ("GPIO1_5" ∷ "SPI0_SDO" ∷ [])
    ∷ muxctrl 0x200f0014 ("GPIO1_6" ∷ "SPI0_SDI" ∷ [])
    ∷ muxctrl 0x200f0018 ("GPIO2_0" ∷ "I2C_SDA" ∷ [])
    ∷ muxctrl 0x200f001c ("GPIO2_1" ∷ "I2C_SCL" ∷ [])
    ∷ muxctrl 0x200f0020 ("GPIO2_2" ∷ "UART1_RTSN" ∷ [])
    ∷ muxctrl 0x200f0024 ("GPIO2_3" ∷ "UART1_RXD" ∷ [])
    ∷ muxctrl 0x200f0028 ("GPIO2_4" ∷ "UART1_CTSN" ∷ [])
    ∷ muxctrl 0x200f002c ("GPIO2_5" ∷ "UART1_TXD" ∷ [])
    ∷ muxctrl 0x200f0030 ("GPIO3_0" ∷ "MII_CRS" ∷ "VOU1120_DATA10" ∷ [])
    ∷ muxctrl 0x200f0034 ("GPIO3_1" ∷ "MII_COL" ∷ "VOU1120_DATA9" ∷ [])
    ∷ muxctrl 0x200f0038 ("GPIO4_3" ∷ "MII_RXD3" ∷ "VOU1120_DATA15" ∷ [])
    ∷ muxctrl 0x200f003c ("GPIO4_2" ∷ "MII_RXD2" ∷ "VOU1120_DATA11" ∷ [])
    ∷ muxctrl 0x200f0040 ("GPIO4_1" ∷ "MII_RXD1" ∷ "VOU1120_DATA8" ∷ [])
    ∷ muxctrl 0x200f0044 ("GPIO4_0" ∷ "MII_RXD0" ∷ "VOU1120_DATA12" ∷ [])
    ∷ muxctrl 0x200f0048 ("GPIO4_7" ∷ "MII_TXD3" ∷ "VOU1120_DATA3" ∷ [])
    ∷ muxctrl 0x200f004c ("GPIO4_6" ∷ "MII_TXD2" ∷ "VOU1120_DATA13" ∷ [])
    ∷ muxctrl 0x200f0050 ("GPIO4_5" ∷ "MII_TXD1" ∷ "VOU1120_DATA0" ∷ [])
    ∷ muxctrl 0x200f0054 ("GPIO4_4" ∷ "MII_TXD0" ∷ "VOU1120_DATA4" ∷ [])
    ∷ muxctrl 0x200f0058 ("GPIO3_2" ∷ "MII_RXCK" ∷ "VOU1120_CLK" ∷ [])
    ∷ muxctrl 0x200f005c ("GPIO3_3" ∷ "MII_TXCK" ∷ "VOU1120_DATA7" ∷ "RMII_CLK" ∷ [])
    ∷ muxctrl 0x200f0060 ("GPIO3_4" ∷ "MII_RXDV" ∷ "VOU1120_DATA1" ∷ [])
    ∷ muxctrl 0x200f0064 ("GPIO3_5" ∷ "MII_TXEN" ∷ "VOU1120_DATA5" ∷ [])
    ∷ muxctrl 0x200f0068 ("GPIO2_6" ∷ "MII_TXER" ∷ [])
    ∷ muxctrl 0x200f006c ("GPIO2_7" ∷ "MII_RXER" ∷ [])
    ∷ muxctrl 0x200f0070 ("GPIO1_3" ∷ "EPHY_CLK" ∷ "VOU1120_DATA2" ∷ [])
    ∷ muxctrl 0x200f0074 ("GPIO3_6" ∷ "MDCK" ∷ "VOU1120_DATA6" ∷ "BOOT_SEL" ∷ [])
    ∷ muxctrl 0x200f0078 ("GPIO3_7" ∷ "MDIO" ∷ "VOU1120_DATA14" ∷ [])
    ∷ muxctrl 0x200f007c ("GPIO1_7" ∷ "FLASH_TRIG" ∷ [])
    ∷ muxctrl 0x200f0080 ("GPIO6_0" ∷ "SDIO_CARD_DETECT" ∷ [])
    ∷ muxctrl 0x200f0084 ("GPIO6_1" ∷ "SDIO_CARD_POWER_EN" ∷ [])
    ∷ muxctrl 0x200f0088 ("GPIO6_2" ∷ "SDIO_CWPR" ∷ [])
    ∷ muxctrl 0x200f008c ("GPIO6_3" ∷ "SDIO_CCMD" ∷ [])
    ∷ muxctrl 0x200f0090 (
        "GPIO6_4" ∷ "SDIO_CDATA0" ∷ "CLK_TEST_OUT0" ∷ "CLK_TEST_OUT1" ∷ "CLK_TEST_OUT2"
        ∷ "CLK_TEST_OUT3" ∷ [])
    ∷ muxctrl 0x200f0094 (
        "PLL_TEST_OUT0" ∷ "SDIO_CDATA1" ∷ "GPIO6_5" ∷ "PLL_TEST_OUT1" ∷ "PLL_TEST_OUT2"
        ∷ "PLL_TEST_OUT3" ∷ "RTC_TEST_CLK" ∷ [])
    ∷ muxctrl 0x200f0098 ("GPIO6_6" ∷ "SDIO_CDATA2" ∷ [])
    ∷ muxctrl 0x200f009c ("GPIO6_7" ∷ "SDIO_CDATA3" ∷ [])
    ∷ muxctrl 0x200f00a0 ("SFC_DIO" ∷ "GPIO7_0" ∷ [])
    ∷ muxctrl 0x200f00a4 ("SFC_WP_IO2" ∷ "GPIO7_1" ∷ [])
    ∷ muxctrl 0x200f00a8 ("SFC_CLK" ∷ "GPIO7_2" ∷ "SFC_ADDR_MODE" ∷ [])
    ∷ muxctrl 0x200f00ac ("SFC_DOI" ∷ "GPIO7_3" ∷ [])
    ∷ muxctrl 0x200f00b0 ("SFC_HOLD_IO3" ∷ "GPIO7_4" ∷ [])
    ∷ muxctrl 0x200f00b4 ("GPIO5_0" ∷ "USB_OVRCUR" ∷ [])
    ∷ muxctrl 0x200f00b8 ("GPIO5_1" ∷ "USB_PWREN" ∷ [])
    ∷ muxctrl 0x200f00bc ("GPIO5_2" ∷ "PWM_OUT0" ∷ [])
    ∷ muxctrl 0x200f00c0 ("GPIO5_3" ∷ "PWM_OUT1" ∷ [])
    ∷ muxctrl 0x200f00c4 ("IR_IN" ∷ "GPIO7_5" ∷ [])
    ∷ muxctrl 0x200f00c8 ("reserved" ∷ "GPIO9_0" ∷ [])
    ∷ muxctrl 0x200f00cc ("reserved" ∷ "GPIO9_1" ∷ [])
    ∷ muxctrl 0x200f00d0 ("reserved" ∷ "GPIO9_2" ∷ [])
    ∷ muxctrl 0x200f00d4 ("reserved" ∷ "GPIO9_3" ∷ [])
    ∷ muxctrl 0x200f00d8 ("reserved" ∷ "GPIO9_4" ∷ [])
    ∷ muxctrl 0x200f00dc ("reserved" ∷ "GPIO9_5" ∷ [])
    ∷ muxctrl 0x200f00e0 ("reserved" ∷ "GPIO9_6" ∷ [])
    ∷ muxctrl 0x200f00e4 ("reserved" ∷ "GPIO9_7" ∷ [])
    ∷ muxctrl 0x200f0108 ("GPIO7_6" ∷ "UART2_RXD" ∷ [])
    ∷ muxctrl 0x200f010c ("GPIO7_7" ∷ "UART2_TXD" ∷ [])
    ∷ muxctrl 0x200f0110 ("GPIO5_4" ∷ "SPI1_SCLK" ∷ [])
    ∷ muxctrl 0x200f0114 ("GPIO5_5" ∷ "SPI1_SDO" ∷ [])
    ∷ muxctrl 0x200f0118 ("GPIO5_6" ∷ "SPI1_SDI" ∷ [])
    ∷ muxctrl 0x200f011c ("GPIO5_7" ∷ "SPI1_CSN" ∷ [])
    ∷ muxctrl 0x200f0120 ("GPIO0_0" ∷ "JTAG_TRSTN" ∷ "TEMPER_DQ" ∷ [])
    ∷ muxctrl 0x200f0124 ("GPIO0_1" ∷ "JTAG_TCK" ∷ "TEMPER_DQ" ∷ [])
    ∷ muxctrl 0x200f0128 ("GPIO0_2" ∷ "JTAG_TMS" ∷ "TEMPER_DQ" ∷ [])
    ∷ muxctrl 0x200f012c ("GPIO0_3" ∷ "JTAG_TDO" ∷ "TEMPER_DQ" ∷ [])
    ∷ muxctrl 0x200f0130 ("GPIO0_4" ∷ "JTAG_TDI" ∷ "TEMPER_DQ" ∷ [])
    ∷ muxctrl 0x200f0134 ("SVB_PWM" ∷ "GPIO0_5" ∷ "TEMPER_DQ" ∷ [])
    ∷ muxctrl 0x200f0138 ("GPIO0_6" ∷ "SVB_PWM" ∷ "TEMPER_DQ" ∷ [])
    ∷ muxctrl 0x200f013c ("SYS_RSTN_OUT" ∷ "GPIO0_7" ∷ "TEMPER_DQ" ∷ [])
    ∷ muxctrl 0x200f0140 ("VIU_CLK" ∷ "GPIO11_6" ∷ [])
    ∷ muxctrl 0x200f0144 ("VIU_VS" ∷ "GPIO11_5" ∷ [])
    ∷ muxctrl 0x200f0148 ("VIU_HS" ∷ "GPIO11_4" ∷ [])
    ∷ muxctrl 0x200f014c ("VIU_DAT11" ∷ "GPIO11_3" ∷ [])
    ∷ muxctrl 0x200f0150 ("VIU_DAT10" ∷ "GPIO11_2" ∷ [])
    ∷ muxctrl 0x200f0154 ("VIU_DAT9" ∷ "GPIO11_1" ∷ [])
    ∷ muxctrl 0x200f0158 ("VIU_DAT8" ∷ "GPIO11_0" ∷ [])
    ∷ muxctrl 0x200f015c ("VIU_DAT7" ∷ "GPIO10_7" ∷ [])
    ∷ muxctrl 0x200f0160 ("VIU_DAT6" ∷ "GPIO10_6" ∷ [])
    ∷ muxctrl 0x200f0164 ("VIU_DAT5" ∷ "GPIO10_5" ∷ [])
    ∷ muxctrl 0x200f0168 ("VIU_DAT4" ∷ "GPIO10_4" ∷ [])
    ∷ muxctrl 0x200f016c ("VIU_DAT3" ∷ "GPIO10_3" ∷ [])
    ∷ muxctrl 0x200f0170 ("VIU_DAT2" ∷ "GPIO10_2" ∷ [])
    ∷ muxctrl 0x200f0174 ("VIU_DAT1" ∷ "GPIO10_1" ∷ [])
    ∷ muxctrl 0x200f0178 ("VIU_DAT0" ∷ "GPIO10_0" ∷ [])
    ∷ []

pub cv100_regs-proper : proper cv100_regs ≡ true
unfolding cv100_regs proper
cv100_regs-proper = refl
